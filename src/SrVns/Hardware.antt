-- ===== src/SrVns/Hardware.antt =====
-- The interfaces that a hardware command describes.
use stanford.Prelude.{
  ℕ, zero, suc, ◌+◌, ◌*◌, ◌-◌, ◌/◌, ◌<◌, ◌≤◌, ◌≡◌, ◌==◌, refl, sym, false, some, List, [], ◌∷◌,
  ◌++◌, arith, All, ap, subst, ◌∙◌, length, drop, replicate, length-append, take-all, ◌>>=◌,
}
use stanford.Wire.{htonl, le32}
use stanford.Wire.Order.{read32-le32, htonl-lt, htonl-htonl}
use stanford.SrProtocol.Layout.{read_bytes}
use stanford.SrProtocol.Layout.RoundTrip.{Six, six, read_bytes-append}
use stanford.SrProtocol.Layout.Cut.{length-Six}
use stanford.SrIf.{
  Iface, Instance, sr_add_interface, update_last, sr_set_ether_addr, sr_set_ether_ip,
}
use stanford.SrVns.{
  c_string, hw_interface, hw_ether, hw_eth_ip, read_entry, first_word, handle_entry, handle_entries,
  sr_handle_hwinfo,
}

-- A value, filled up to its 32 bytes.
abbrev pub padded : List ℕ → List ℕ
padded value = value ++ replicate (32 - length value) 0

abbrev pub entry_bytes : ℕ → List ℕ → List ℕ
entry_bytes key value = le32 (htonl key) ++ padded value

-- The entries for each interface: its name, its Ethernet address and its IP address.
unfoldable pub ifaces_bytes : List Iface → List ℕ
ifaces_bytes [] = []
ifaces_bytes (i ∷ is) =
    entry_bytes hw_interface i.name
    ++ (entry_bytes hw_ether i.addr ++ (entry_bytes hw_eth_ip (le32 i.ip) ++ ifaces_bytes is))

-- Three for each interface.
count_entries : List Iface → ℕ
count_entries [] = 0
count_entries (i ∷ is) = suc (suc (suc (count_entries is)))

length-replicate : (n : ℕ) → length (replicate {A = ℕ} n 0) ≡ n
length-replicate zero = refl
length-replicate (suc n) = ap suc (length-replicate n)

length-padded : (v : List ℕ) → length v ≤ 32 → length (padded v) ≡ 32
length-padded v h =
    omega
      (arith, h, length-append v (replicate (32 - length v) 0), length-replicate (32 - length v))

drop-length : (xs ys : List ℕ) → drop (length xs) (xs ++ ys) ≡ ys
drop-length [] ys = refl
drop-length (x ∷ xs) ys = drop-length xs ys

read_word_entry :
    (w : ℕ) (value rest : List ℕ)
    → w < 4294967296
    → length value ≡ 32
    → read_entry (le32 w ++ (value ++ rest)) ≡ some (record { key = htonl w; value = value }, rest)
unfolding read_entry le32
read_word_entry w value rest lt len =
    let word = read32-le32 w lt in
    let read = read_bytes-append 32 value rest len in
    let left : drop 32 (value ++ rest) ≡ rest =
      subst {A = ℕ} (λ n. drop n (value ++ rest) ≡ rest) len (drop-length value rest) in
    rw (read, word, left) refl

-- A name has no NUL, and at most 32 bytes.
abbrev pub IsName : List ℕ → Type 0
IsName name = All (λ b. (b == 0) ≡ false) name × (length name ≤ 32)

c_string-zeros : (n k : ℕ) → n ≤ k → c_string n (replicate k 0) ≡ some []
unfolding c_string
c_string-zeros zero k h = refl
c_string-zeros (suc n) zero h = absurd (omega (arith, h))
c_string-zeros (suc n) (suc k) h = refl

c_string-padded :
    (n k : ℕ) (name : List ℕ)
    → All (λ b. (b == 0) ≡ false) name
    → length name + k ≡ n
    → c_string n (name ++ replicate k 0) ≡ some name
unfolding c_string
c_string-padded n k [] a h = c_string-zeros n k (omega (arith, h))
c_string-padded zero k (b ∷ bs) a h = absurd (omega (arith, h))
c_string-padded (suc n) k (b ∷ bs) a h =
    rw (a.0, c_string-padded n k bs a.1 (omega (arith, h))) refl

update_last-append :
    (g : Iface → Iface) (ifs : List Iface) (i : Iface)
    → update_last g (ifs ++ (i ∷ [])) ≡ some (ifs ++ (g i ∷ []))
unfolding update_last
update_last-append g [] i = refl
update_last-append g (j ∷ []) i = refl
update_last-append g (j ∷ k ∷ ifs) i = rw (update_last-append g (k ∷ ifs) i) refl

handle_entries-entry :
    (n key : ℕ) (ifs : List Iface) (v rest : List ℕ)
    → key < 4294967296
    → length v ≤ 32
    → handle_entries (suc n) ifs (entry_bytes key v ++ rest) ≡ (
        handle_entry ifs (record { key = key; value = padded v }) >>= λ ifs'.
        handle_entries n ifs' rest)
unfolding handle_entries le32
handle_entries-entry n key ifs v rest lt len =
    let read = read_word_entry (htonl key) (padded v) rest (htonl-lt key) (length-padded v len) in
    let same = htonl-htonl key lt in rw (read, same) refl

-- An interface as the struct holds it.
pub record IsInterface (i : Iface) : Type 0 where
  pub named : IsName i.name
  pub addr : Six i.addr
  pub ip : i.ip < 4294967296

handle_name :
    (ifs : List Iface) (name : List ℕ)
    → IsName name
    → handle_entry ifs (record { key = hw_interface; value = padded name })
      ≡ some (ifs ++ (record { name = name; addr = replicate 6 0; ip = 0 } ∷ []))
unfolding handle_entry sr_add_interface
handle_name ifs name v =
    let read = c_string-padded 32 (32 - length name) name v.0 (omega (arith, v.1)) in
    rw (read, take-all 32 name v.1) refl

handle_addr :
    (ifs : List Iface) (i : Iface) (addr : List ℕ)
    → Six addr
    → handle_entry (ifs ++ (i ∷ [])) (record { key = hw_ether; value = padded addr })
      ≡ some (ifs ++ (record i { addr = addr } ∷ []))
unfolding handle_entry sr_set_ether_addr read_bytes
handle_addr ifs i addr (six a b c d e f) =
    update_last-append (λ j. record j { addr = a ∷ b ∷ c ∷ d ∷ e ∷ f ∷ [] }) ifs i

handle_ip :
    (ifs : List Iface) (i : Iface) (ip : ℕ)
    → ip < 4294967296
    → handle_entry (ifs ++ (i ∷ [])) (record { key = hw_eth_ip; value = padded (le32 ip) })
      ≡ some (ifs ++ (record i { ip = ip } ∷ []))
unfolding handle_entry sr_set_ether_ip first_word le32
handle_ip ifs i ip lt =
    let word = read32-le32 ip lt in rw word (update_last-append (λ j. record j { ip = ip }) ifs i)

add_assoc :
    (xs : List Iface) (y : Iface) (ys : List Iface) → (xs ++ (y ∷ [])) ++ ys ≡ xs ++ (y ∷ ys)
add_assoc [] y ys = refl
add_assoc (x ∷ xs) y ys = ap (λ l. x ∷ l) (add_assoc xs y ys)

append_nil : (xs : List Iface) → xs ++ [] ≡ xs
append_nil [] = refl
append_nil (x ∷ xs) = ap (λ l. x ∷ l) (append_nil xs)

handle_entries-ifaces :
    (ifs is : List Iface)
    → All IsInterface is
    → handle_entries (count_entries is) ifs (ifaces_bytes is) ≡ some (ifs ++ is)
unfolding ifaces_bytes handle_entries le32 count_entries
handle_entries-ifaces ifs [] v = ap some (sym (append_nil ifs))
handle_entries-ifaces ifs (i ∷ is) (v, vs) =
    let n = count_entries is in
    let rest = ifaces_bytes is in
    let ip_rest = entry_bytes hw_eth_ip (le32 i.ip) ++ rest in
    let addr_rest = entry_bytes hw_ether i.addr ++ ip_rest in
    let i1 : Iface = record { name = i.name; addr = replicate 6 0; ip = 0 } in
    let i2 : Iface = record i1 { addr = i.addr } in
    handle_entries-entry (suc (suc n)) hw_interface ifs i.name addr_rest (omega arith) v.named.1
    ∙ ap (λ o. o >>= λ l. handle_entries (suc (suc n)) l addr_rest) (handle_name ifs i.name v.named)
    ∙ handle_entries-entry (suc n) hw_ether (ifs ++ (i1 ∷ [])) i.addr ip_rest (omega arith)
        (omega (arith, length-Six i.addr v.addr))
    ∙ ap (λ o. o >>= λ l. handle_entries (suc n) l ip_rest) (handle_addr ifs i1 i.addr v.addr)
    ∙ handle_entries-entry n hw_eth_ip (ifs ++ (i2 ∷ [])) (le32 i.ip) rest (omega arith)
        (omega arith)
    ∙ ap (λ o. o >>= λ l. handle_entries n l rest) (handle_ip ifs i2 i.ip v.ip)
    ∙ handle_entries-ifaces (ifs ++ (i ∷ [])) is vs
    ∙ ap some (add_assoc ifs i is)

length-entry :
    (key : ℕ) (v rest : List ℕ)
    → length v ≤ 32
    → length (entry_bytes key v ++ rest) ≡ 36 + length rest
unfolding le32
length-entry key v rest h = omega (arith, length-append (padded v) rest, length-padded v h)

length-ifaces_bytes :
    (is : List Iface) → All IsInterface is → length (ifaces_bytes is) ≡ 36 * count_entries is
unfolding ifaces_bytes count_entries le32
length-ifaces_bytes [] v = refl
length-ifaces_bytes (i ∷ is) (v, vs) =
    let rest = ifaces_bytes is in
    let ip_rest = entry_bytes hw_eth_ip (le32 i.ip) ++ rest in
    let a = length-entry hw_interface i.name (entry_bytes hw_ether i.addr ++ ip_rest) v.named.1 in
    let b = length-entry hw_ether i.addr ip_rest (omega (arith, length-Six i.addr v.addr)) in
    let c = length-entry hw_eth_ip (le32 i.ip) rest (omega arith) in
    omega (arith, a, b, c, length-ifaces_bytes is vs)

-- A hardware command whose entries give, for each of some interfaces, the name, the Ethernet address
-- and the IP address, puts exactly these interfaces behind those that the router has, in their order
-- and with these names and addresses. A name has at most 32 bytes and no NUL, an Ethernet address six
-- bytes, and an IP address fits into its word; the 8 bytes of the command's header are any.
pub handle_hwinfo-adds :
    (sr : Instance) (header : List ℕ) (is : List Iface)
    → length header ≡ 8
    → All IsInterface is
    → sr_handle_hwinfo sr (header ++ ifaces_bytes is)
      ≡ some (record sr { if_list = sr.if_list ++ is })
unfolding sr_handle_hwinfo
handle_hwinfo-adds sr header is h v =
    let buf = header ++ ifaces_bytes is in
    let n : (length buf - 8) / 36 ≡ count_entries is =
      omega (arith, h, length-append header (ifaces_bytes is), length-ifaces_bytes is v) in
    let body : drop 8 buf ≡ ifaces_bytes is =
      subst {A = ℕ} (λ k. drop k buf ≡ ifaces_bytes is) h (drop-length header (ifaces_bytes is)) in
    rw (n, body, handle_entries-ifaces sr.if_list is v) refl
