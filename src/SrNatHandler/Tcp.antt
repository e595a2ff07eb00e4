-- ===== src/SrNatHandler/Tcp.antt =====
-- A TCP packet from the inside and its answer from the outside.
use stanford.Prelude.{ℕ, ◌≡◌, refl, sym, inl, inr, some, List, arith, ap, ◌∙◌, Option-cases}
use stanford.SrProtocol.{IpHdr, TcpHdr}
use stanford.SrNat.{Nat, Mapping, nat_mapping_tcp, sr_nat_insert_mapping, sr_nat_lookup_external}
use stanford.SrNat.Sessions.{Headers, sr_nat_update_tcp_sent_state, sr_nat_update_tcp_recvd_state}
use stanford.SrNat.Bindings.{binding, bindings}
use stanford.SrNat.Calls.{Call}
use stanford.SrNat.Moves.{sent-Same}
use stanford.SrNat.Invariant.{run}
use stanford.SrNat.Distinct.{ExternalsDistinct}
use stanford.SrNat.External.{IsBound, IsBound-moves, insert-IsBound, lookup_external-IsBound}
use stanford.SrNat.Kept.{NoSweep, run-keeps}
use stanford.SrIf.{Instance}
use stanford.SrNatHandler.{
  Handled, nat_mapped, rewrite_source_address, handle_internal_tcp_pkt, handle_external_tcp_pkt,
}

-- What an outbound packet that was translated says of the table.
record Outbound (ip : IpHdr) (tcp : TcpHdr) (h : Handled TcpHdr) : Type 0 where
  m : Mapping
  found : IsBound h.nat ip.ip_src tcp.source nat_mapping_tcp m
  named : h.hdr.source ≡ m.aux_ext

internal-Outbound :
    (mem : Headers) (sr : Instance) (nat : Nat) (ip : IpHdr) (tcp : TcpHdr) (now : ℕ)
    (h : Handled TcpHdr)
    → handle_internal_tcp_pkt mem sr nat ip tcp now ≡ some h
    → h.resp ≡ nat_mapped
    → Outbound ip tcp h
unfolding handle_internal_tcp_pkt
internal-Outbound mem sr nat ip tcp now h e r =
    let (nat', m) = sr_nat_insert_mapping nat ip.ip_src tcp.source nat_mapping_tcp now in
    let known = insert-IsBound nat ip.ip_src tcp.source nat_mapping_tcp now in
    elim (Option-cases (sr_nat_update_tcp_sent_state mem nat' ip tcp now)) [
      | inl f ↦ absurd (ground (arith, e, f))
      | inr (tracked, f) ↦ elim (Option-cases (rewrite_source_address sr ip)) [
        | inl g ↦ absurd (ground (arith, e, f, g))
        | inr (rewritten, g) ↦ elim (Option-cases rewritten) [
          | inl k ↦ absurd (ground (arith, e, f, g, k, r))
          | inr (ip', k) ↦
              let table : tracked ≡ h.nat = ground (arith, e, f, g, k) in
              let same = sent-Same mem nat' tracked ip tcp now f in
              record {
                m = m;
                found =
                    IsBound-moves nat' h.nat ip.ip_src tcp.source nat_mapping_tcp m
                      (ap bindings (sym table) ∙ same.bound) known;
                named = ground (arith, e, f, g, k);
              }
        ]
      ]
    ]

external-mapped :
    (mem : Headers) (ip_ptr : ℕ) (nat : Nat) (ip : IpHdr) (tcp : TcpHdr) (now : ℕ) (m : Mapping)
    → (sr_nat_lookup_external nat tcp.dest nat_mapping_tcp now).1 ≡ some m
    → (b : Handled TcpHdr) × (handle_external_tcp_pkt mem ip_ptr nat ip tcp now ≡ some b)
      × (b.resp ≡ nat_mapped)
      × (b.ip ≡ record ip { ip_dst = m.ip_int })
      × (b.hdr ≡ record tcp { dest = m.aux_int })
unfolding handle_external_tcp_pkt
external-mapped mem ip_ptr nat ip tcp now m e = (
  record {
    nat =
        sr_nat_update_tcp_recvd_state (sr_nat_lookup_external nat tcp.dest nat_mapping_tcp now).0 ip
          tcp now;
    ip = record ip { ip_dst = m.ip_int };
    hdr = record tcp { dest = m.aux_int };
    resp = nat_mapped;
  },
  ground (arith, e),
  refl,
  refl,
  refl,
)

-- A TCP packet from the inside is translated. Then, whatever the router does before the next round
-- of the timer, as long as no two mappings share an external id, a packet from the outside to the
-- port that the first one got is translated to the inside address and port that the first one came
-- from, and nothing else of its headers changes.
pub tcp-round_trip :
    (mem : Headers) (sr : Instance) (nat later : Nat) (ip ip_in : IpHdr) (tcp tcp_in : TcpHdr)
    (now after ip_ptr : ℕ) (cs : List (ℕ × Call)) (out : Handled TcpHdr)
    → handle_internal_tcp_pkt mem sr nat ip tcp now ≡ some out
    → out.resp ≡ nat_mapped
    → NoSweep cs
    → run mem out.nat cs ≡ some later
    → ExternalsDistinct (bindings later)
    → tcp_in.dest ≡ out.hdr.source
    → (back : Handled TcpHdr) × (handle_external_tcp_pkt mem ip_ptr later ip_in tcp_in after
        ≡ some back)
      × (back.resp ≡ nat_mapped)
      × (back.ip ≡ record ip_in { ip_dst = ip.ip_src })
      × (back.hdr ≡ record tcp_in { dest = tcp.source })
tcp-round_trip mem sr nat later ip ip_in tcp tcp_in now after ip_ptr cs out e r q f d to =
    let o = internal-Outbound mem sr nat ip tcp now out e r in
    let held : IsBound later ip.ip_src tcp.source nat_mapping_tcp o.m = record {
      bound = run-keeps mem cs out.nat later (binding o.m) q f o.found.bound;
      same_ip = o.found.same_ip;
      same_aux = o.found.same_aux;
      kind = o.found.kind;
    } in
    let (m, g, a, p) =
      lookup_external-IsBound later ip.ip_src tcp.source nat_mapping_tcp o.m tcp_in.dest after held
        d (to ∙ o.named) in
    let (back, h, s, i, t) = external-mapped mem ip_ptr later ip_in tcp_in after m g in
    (
      back,
      h,
      s,
      i ∙ ap (λ x. record ip_in { ip_dst = x }) a,
      t ∙ ap (λ x. record tcp_in { dest = x }) p,
    )
