-- ===== src/Tcp/Session/Walk.antt =====
-- The walk of `get_session` of reliable.c and the packet for the session that it finds.
use stanford.Prelude.{
  ℕ, ◌≡◌, refl, ap, inl, inr, ◌⊎◌, Bool, true, false, Option, none, some, List, [], ◌∷◌, ◌++◌, All,
}
use stanford.Tcp.Packet.{Packet, PacketType}
use stanford.Tcp.State.{Rel, Sockaddr}
use stanford.Tcp.Session.{addreq, process_pkt, serve_session}

-- No session has the address.
abbrev pub Unknown : Sockaddr → List Rel → Type 0
Unknown ss rs = All (λ r. addreq r.ss ss ≡ some false) rs

-- The first session with the address has processed the packet; all others are as they were.
pub record Served (rs rs' : List Rel) (ss : Sockaddr) (pkt : Packet) (t : PacketType) (now : ℕ)
    : Type 0 where
  pub before : List Rel
  pub found : Rel
  pub rest : List Rel
  pub after : Rel
  pub old : rs ≡ before ++ found ∷ rest
  pub new : rs' ≡ before ++ after ∷ rest
  pub others : Unknown ss before
  pub same : addreq found.ss ss ≡ some true
  pub processed : process_pkt found pkt t now ≡ some after

-- The walk stops at a session: its address has an unknown family, or it is the one and faults.
pub record Stopped (rs : List Rel) (ss : Sockaddr) (pkt : Packet) (t : PacketType) (now : ℕ)
    : Type 0 where
  pub before : List Rel
  pub found : Rel
  pub rest : List Rel
  pub old : rs ≡ before ++ found ∷ rest
  pub others : Unknown ss before
  pub fault :
      (addreq found.ss ss ≡ none)
      ⊎ ((addreq found.ss ss ≡ some true) × (process_pkt found pkt t now ≡ none))

-- What the walk of `get_session` found.
abbrev pub Walked :
    List Rel → Sockaddr → Packet → PacketType → ℕ → Option (Option (List Rel)) → Type 0
Walked rs ss pkt t now none = Stopped rs ss pkt t now
Walked rs ss pkt t now (some none) = Unknown ss rs
Walked rs ss pkt t now (some (some rs')) = Served rs rs' ss pkt t now

Served-cons :
    (r : Rel) (rs rs' : List Rel) (ss : Sockaddr) (pkt : Packet) (t : PacketType) (now : ℕ)
    → addreq r.ss ss ≡ some false
    → Served rs rs' ss pkt t now
    → Served (r ∷ rs) (r ∷ rs') ss pkt t now
Served-cons r rs rs' ss pkt t now e s = record {
  before = r ∷ s.before;
  found = s.found;
  rest = s.rest;
  after = s.after;
  old = ap (λ xs. r ∷ xs) s.old;
  new = ap (λ xs. r ∷ xs) s.new;
  others = (e, s.others);
  same = s.same;
  processed = s.processed;
}

Stopped-cons :
    (r : Rel) (rs : List Rel) (ss : Sockaddr) (pkt : Packet) (t : PacketType) (now : ℕ)
    → addreq r.ss ss ≡ some false
    → Stopped rs ss pkt t now
    → Stopped (r ∷ rs) ss pkt t now
Stopped-cons r rs ss pkt t now e s = record {
  before = r ∷ s.before;
  found = s.found;
  rest = s.rest;
  old = ap (λ xs. r ∷ xs) s.old;
  others = (e, s.others);
  fault = s.fault;
}

Stopped-here :
    (r : Rel) (rs : List Rel) (ss : Sockaddr) (pkt : Packet) (t : PacketType) (now : ℕ)
    → (addreq r.ss ss ≡ none) ⊎ ((addreq r.ss ss ≡ some true) × (process_pkt r pkt t now ≡ none))
    → Stopped (r ∷ rs) ss pkt t now
Stopped-here r rs ss pkt t now f = record {
  before = [];
  found = r;
  rest = rs;
  old = refl;
  others = tt;
  fault = f;
}

-- The session at hand, by what the comparison of addresses gave.
at_head :
    (r : Rel) (rs : List Rel) (ss : Sockaddr) (pkt : Packet) (t : PacketType) (now : ℕ)
    (same : Option Bool) (o : Option Rel) (found : Option (Option (List Rel)))
    → addreq r.ss ss ≡ same
    → process_pkt r pkt t now ≡ o
    → serve_session rs ss pkt t now ≡ found
    → Walked rs ss pkt t now found
    → Walked (r ∷ rs) ss pkt t now (serve_session (r ∷ rs) ss pkt t now)
unfolding serve_session
at_head r rs ss pkt t now none o found e f g w = rw e (Stopped-here r rs ss pkt t now (inl e))
at_head r rs ss pkt t now (some true) none found e f g w =
    rw (e, f) (Stopped-here r rs ss pkt t now (inr (e, f)))
at_head r rs ss pkt t now (some true) (some r') found e f g w =
    rw (e, f)
      (record {
        before = [];
        found = r;
        rest = rs;
        after = r';
        old = refl;
        new = refl;
        others = tt;
        same = e;
        processed = f;
      })
at_head r rs ss pkt t now (some false) o none e f g w =
    rw (e, g) (Stopped-cons r rs ss pkt t now e w)
at_head r rs ss pkt t now (some false) o (some none) e f g w = rw (e, g) (e, w)
at_head r rs ss pkt t now (some false) o (some (some rs')) e f g w =
    rw (e, g) (Served-cons r rs rs' ss pkt t now e w)

pub serve_session-Walked :
    (rs : List Rel) (ss : Sockaddr) (pkt : Packet) (t : PacketType) (now : ℕ)
    → Walked rs ss pkt t now (serve_session rs ss pkt t now)
unfolding serve_session
serve_session-Walked [] ss pkt t now = tt
serve_session-Walked (r ∷ rs) ss pkt t now =
    at_head r rs ss pkt t now _ _ _ refl refl refl (serve_session-Walked rs ss pkt t now)
