-- ===== src/SrVns/Server/Framing.antt =====
-- The commands of the simulator are the same however the socket cuts them.
use mathlib.Core.List.{append-nil}
use stanford.Prelude.{
  ℕ, zero, suc, ◌+◌, ◌-◌, ◌≤◌, ◌≡◌, refl, ap, ◌∙◌, List, [], ◌∷◌, ◌++◌, arith, length, take, drop,
  All, length-append,
}
use stanford.SrNat.Sessions.{Headers}
use stanford.SrVns.Server.{
  Recv, complete, read_exact, command_len, read_body, read_command, Link, Outside, ending,
  expect_command, serve_read, sr_read_from_server_expect,
}
use stanford.SrVns.Server.Pieces.{
  all_bytes, IsSteady, take-append_more, take-append_fewer, read_exact-HasRead,
}

take-drop : (n : ℕ) (xs : List ℕ) → take n xs ++ drop n xs ≡ xs
take-drop zero xs = refl
take-drop (suc n) [] = refl
take-drop (suc n) (x ∷ xs) = ap (λ ys. x ∷ ys) (take-drop n xs)

length-drop : (n : ℕ) (xs : List ℕ) → n ≤ length xs → length (drop n xs) + n ≡ length xs
length-drop zero xs h = omega arith
length-drop (suc n) [] h = absurd (omega arith)
length-drop (suc n) (x ∷ xs) h = omega (arith, length-drop n xs (omega arith))

command_len-take : (c : List ℕ) → command_len (take 4 c) ≡ command_len c
unfolding command_len
command_len-take [] = refl
command_len-take (a ∷ []) = refl
command_len-take (a ∷ b ∷ []) = refl
command_len-take (a ∷ b ∷ c ∷ []) = refl
command_len-take (a ∷ b ∷ c ∷ d ∷ rest) = refl

body_there :
    (buf : List ℕ) (rest : List Recv)
    → command_len buf ≤ 10000
    → read_body (complete buf rest) ≡ read_exact rest (command_len buf - 4) buf
unfolding read_body
body_there buf rest h = ground (arith, h)

-- The whole command, and the bytes behind it.
record IsWhole (s : List Recv) (c behind : List ℕ) : Type 0 where
  rest : List Recv
  result : read_command s ≡ complete c rest
  later : all_bytes rest ≡ behind
  steady : All IsSteady rest

read_command-IsWhole :
    (s : List Recv) (c behind : List ℕ)
    → All IsSteady s
    → all_bytes s ≡ c ++ behind
    → 8 ≤ length c
    → command_len c ≡ length c
    → length c ≤ 10000
    → IsWhole s c behind
unfolding read_command
read_command-IsWhole s c behind h e long l short =
    let total = ap (λ (xs : List ℕ). length xs) e ∙ length-append c behind in
    let first = read_exact-HasRead s 4 [] h (omega (arith, total)) in
    let head : take 4 (all_bytes s) ≡ take 4 c =
      ap (take 4) e ∙ (take-append_fewer c behind 4 (omega arith)).0 in
    let after : all_bytes first.rest ≡ drop 4 c ++ behind =
      first.later ∙ ap (drop 4) e ∙ (take-append_fewer c behind 4 (omega arith)).1 in
    let tail = length-drop 4 c (omega arith) in
    let len : command_len (take 4 c) ≡ length c = command_len-take c ∙ l in
    let second =
      read_exact-HasRead first.rest (command_len (take 4 c) - 4) (take 4 c) first.steady (
        omega (
          arith,
          ap (λ (xs : List ℕ). length xs) after ∙ length-append (drop 4 c) behind,
          tail,
          len,
        )) in
    let whole =
      take-append_more (drop 4 c) behind (command_len (take 4 c) - 4) (omega (arith, tail, len)) in
    let none_left : command_len (take 4 c) - 4 - length (drop 4 c) ≡ 0 = omega (arith, tail, len) in
    record {
      rest = second.rest;
      result =
          ap read_body (first.result ∙ ap (λ b. complete b first.rest) head)
          ∙ body_there (take 4 c) first.rest (omega (arith, len))
          ∙ second.result
          ∙ ap (λ b. complete (take 4 c ++ b) second.rest)
              (ap (take (command_len (take 4 c) - 4)) after
                ∙ whole.0
                ∙ ap (λ k. drop 4 c ++ take k behind) none_left
                ∙ append-nil (drop 4 c))
          ∙ ap (λ b. complete b second.rest) (take-drop 4 c);
      later =
          second.later
          ∙ ap (drop (command_len (take 4 c) - 4)) after
          ∙ whole.1
          ∙ ap (λ k. drop k behind) none_left;
      steady = second.steady;
    }

-- A command of 8 to 10000 bytes whose first four say its length is read whole and handled once,
-- however the socket cuts it and whatever signals interrupt the reads, provided that no read fails; the
-- bytes behind it are left for the next call.
pub sr_read_from_server_expect-Framed :
    (out : Outside) (mem : Headers) (ip_ptr fuel now : ℕ) (l : Link) (expected_cmd : ℕ)
    (s : List Recv) (c behind : List ℕ)
    → All IsSteady s
    → all_bytes s ≡ c ++ behind
    → 8 ≤ length c
    → command_len c ≡ length c
    → length c ≤ 10000
    → (rest : List Recv) × (sr_read_from_server_expect out mem ip_ptr fuel now l expected_cmd s
        ≡ ending rest (expect_command out mem ip_ptr fuel now l expected_cmd c))
      × (all_bytes rest ≡ behind)
      × All IsSteady rest
unfolding sr_read_from_server_expect serve_read
sr_read_from_server_expect-Framed out mem ip_ptr fuel now l expected_cmd s c behind h e long len
      short =
    let k = read_command-IsWhole s c behind h e long len short in
    (k.rest, ap (serve_read out mem ip_ptr fuel now l expected_cmd s) k.result, k.later, k.steady)
