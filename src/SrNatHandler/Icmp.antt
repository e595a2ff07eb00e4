-- ===== src/SrNatHandler/Icmp.antt =====
-- An ICMP echo request from the inside and its reply from the outside.
use stanford.Prelude.{ℕ, ◌≡◌, sym, inl, inr, some, List, arith, ap, ◌∙◌, Option-cases}
use stanford.SrProtocol.{IpHdr}
use stanford.SrNat.{Nat, Mapping, nat_mapping_icmp, sr_nat_insert_mapping, sr_nat_lookup_external}
use stanford.SrNat.Sessions.{Headers}
use stanford.SrNat.Bindings.{binding, bindings}
use stanford.SrNat.Calls.{Call}
use stanford.SrNat.Invariant.{run}
use stanford.SrNat.Distinct.{ExternalsDistinct}
use stanford.SrNat.External.{IsBound, IsBound-moves, insert-IsBound, lookup_external-IsBound}
use stanford.SrNat.Kept.{NoSweep, run-keeps}
use stanford.SrIf.{Instance}
use stanford.SrIcmp.{EchoHdr}
use stanford.SrNatHandler.{
  Handled, nat_mapped, rewrite_source_address, handle_internal_icmp_echo_req_pkt,
  handle_external_icmp_echo_reply_pkt,
}

record Outbound (ip : IpHdr) (icmp : EchoHdr) (h : Handled EchoHdr) : Type 0 where
  m : Mapping
  found : IsBound h.nat ip.ip_src icmp.iden nat_mapping_icmp m
  named : h.hdr.iden ≡ m.aux_ext

internal-Outbound :
    (sr : Instance) (nat : Nat) (ip : IpHdr) (icmp : EchoHdr) (now : ℕ) (h : Handled EchoHdr)
    → handle_internal_icmp_echo_req_pkt sr nat ip icmp now ≡ some h
    → h.resp ≡ nat_mapped
    → Outbound ip icmp h
unfolding handle_internal_icmp_echo_req_pkt
internal-Outbound sr nat ip icmp now h e r =
    let (nat', m) = sr_nat_insert_mapping nat ip.ip_src icmp.iden nat_mapping_icmp now in
    let known = insert-IsBound nat ip.ip_src icmp.iden nat_mapping_icmp now in
    elim (Option-cases (rewrite_source_address sr ip)) [
      | inl g ↦ absurd (ground (arith, e, g))
      | inr (rewritten, g) ↦ elim (Option-cases rewritten) [
        | inl k ↦ absurd (ground (arith, e, g, k, r))
        | inr (ip', k) ↦
            let table : nat' ≡ h.nat = ground (arith, e, g, k) in
            record {
              m = m;
              found =
                  IsBound-moves nat' h.nat ip.ip_src icmp.iden nat_mapping_icmp m
                    (ap bindings (sym table)) known;
              named = ground (arith, e, g, k);
            }
      ]
    ]

external-mapped :
    (nat : Nat) (ip : IpHdr) (icmp : EchoHdr) (now : ℕ) (m : Mapping)
    → (sr_nat_lookup_external nat icmp.iden nat_mapping_icmp now).1 ≡ some m
    → let b = handle_external_icmp_echo_reply_pkt nat ip icmp now in
      (b.resp ≡ nat_mapped)
      × (b.ip ≡ record ip { ip_dst = m.ip_int })
      × (b.hdr ≡ record icmp { iden = m.aux_int })
unfolding handle_external_icmp_echo_reply_pkt
external-mapped nat ip icmp now m e = (ground (arith, e), ground (arith, e), ground (arith, e))

-- An echo request from the inside is translated. Then, whatever the router does before the next
-- round of the timer, as long as no two mappings share an external id, a reply from the outside with
-- the identifier that the request got is translated to the inside address and identifier that the
-- request came with, and nothing else of its headers changes.
pub echo-round_trip :
    (mem : Headers) (sr : Instance) (nat later : Nat) (ip ip_in : IpHdr) (icmp icmp_in : EchoHdr)
    (now after : ℕ) (cs : List (ℕ × Call)) (out : Handled EchoHdr)
    → handle_internal_icmp_echo_req_pkt sr nat ip icmp now ≡ some out
    → out.resp ≡ nat_mapped
    → NoSweep cs
    → run mem out.nat cs ≡ some later
    → ExternalsDistinct (bindings later)
    → icmp_in.iden ≡ out.hdr.iden
    → let back = handle_external_icmp_echo_reply_pkt later ip_in icmp_in after in
      (back.resp ≡ nat_mapped)
      × (back.ip ≡ record ip_in { ip_dst = ip.ip_src })
      × (back.hdr ≡ record icmp_in { iden = icmp.iden })
echo-round_trip mem sr nat later ip ip_in icmp icmp_in now after cs out e r q f d to =
    let o = internal-Outbound sr nat ip icmp now out e r in
    let held : IsBound later ip.ip_src icmp.iden nat_mapping_icmp o.m = record {
      bound = run-keeps mem cs out.nat later (binding o.m) q f o.found.bound;
      same_ip = o.found.same_ip;
      same_aux = o.found.same_aux;
      kind = o.found.kind;
    } in
    let (m, g, a, p) =
      lookup_external-IsBound later ip.ip_src icmp.iden nat_mapping_icmp o.m icmp_in.iden after held
        d (to ∙ o.named) in
    let (s, i, t) = external-mapped later ip_in icmp_in after m g in
    (s, i ∙ ap (λ x. record ip_in { ip_dst = x }) a, t ∙ ap (λ x. record icmp_in { iden = x }) p)
