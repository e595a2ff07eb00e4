-- ===== src/SrIp/Load.antt =====
-- The file of routes: `sr_load_rt` of cs144/router/sr_rt.c.
use stanford.Prelude.{
  ℕ, ◌≡◌, refl, sym, Bool, true, false, Option, none, some, List, [], ◌∷◌, ◌++◌, if◌then◌else◌, ap,
  ◌∙◌, ◌>>=◌, arith, Option-cases, inl, inr,
}
use stanford.SrIp.{Route, sr_add_rt_entry}

-- The local buffers, which keep their text from one line to the next.
pub record Fields : Type 0 where
  pub dest : List ℕ
  pub gw : List ℕ
  pub mask : List ℕ
  pub iface : List ℕ

-- `sscanf` with the format of the code, on a line and the buffers, and `inet_aton`.
module _ (sscanf : List ℕ → Fields → Fields) (inet_aton : List ℕ → Option ℕ) where
  -- The three conversions; `none` is that one of them fails.
  unfoldable pub route_of : Fields → Option Route
  route_of f = inet_aton f.dest >>= λ dest. inet_aton f.gw >>= λ gw. inet_aton f.mask >>= λ mask.
      some (record { dest = dest; gw = gw; mask = mask; iface = f.iface })

  -- The loop, on the lines that `fgets` gives. The result is false for the code's -1.
  unfoldable pub load_lines : List (List ℕ) → Fields → Bool → List Route → List Route × Bool
  load_lines [] f cleared table = (table, true)
  load_lines (line ∷ lines) f cleared table =
      let g = sscanf line f in
      elim (route_of g) [
        | none ↦ (table, false)
        | some rt ↦
            load_lines lines g true
              (sr_add_rt_entry (if cleared then table else []) rt.dest rt.gw rt.mask rt.iface)
      ]

  -- `none` is a file that cannot be read. The buffers are not set before the first line.
  unfoldable pub sr_load_rt : Option (List (List ℕ)) → Fields → List Route → List Route × Bool
  sr_load_rt none f table = (table, false)
  sr_load_rt (some lines) f table = load_lines lines f false table

  -- The routes of the lines before the first that is bad, and whether there is none that is.
  unfoldable pub routes_of : List (List ℕ) → Fields → List Route × Bool
  routes_of [] f = ([], true)
  routes_of (line ∷ lines) f =
      let g = sscanf line f in
      let rest = routes_of lines g in
      elim (route_of g) [ none ↦ ([], false) | some rt ↦ (rt ∷ rest.0, rest.1) ]

  add_assoc :
      (xs : List Route) (y : Route) (ys : List Route) → (xs ++ (y ∷ [])) ++ ys ≡ xs ++ (y ∷ ys)
  add_assoc [] y ys = refl
  add_assoc (x ∷ xs) y ys = ap (λ l. x ∷ l) (add_assoc xs y ys)

  append_nil : (xs : List Route) → xs ++ [] ≡ xs
  append_nil [] = refl
  append_nil (x ∷ xs) = ap (λ l. x ∷ l) (append_nil xs)

  load_lines_cleared :
      (lines : List (List ℕ)) (f : Fields) (table : List Route)
      → load_lines lines f true table ≡ (table ++ (routes_of lines f).0, (routes_of lines f).1)
  unfolding load_lines routes_of sr_add_rt_entry
  load_lines_cleared [] f table =
      ap {B = List Route × Bool} (λ l. (l, true)) (sym (append_nil table))
  load_lines_cleared (line ∷ lines) f table = elim (Option-cases (route_of (sscanf line f))) [
    | inl e ↦ ground (arith, e, append_nil table)
    | inr (rt, e) ↦
        let g = sscanf line f in
        let rest = routes_of lines g in
        let step : load_lines lines g true (table ++ (rt ∷ [])) ≡ (table ++ (rt ∷ rest.0), rest.1) =
          load_lines_cleared lines g (table ++ (rt ∷ []))
          ∙ ap {B = List Route × Bool} (λ l. (l, rest.1)) (add_assoc table rt rest.0) in
        ground (arith, e, step)
  ]

  abbrev or_else : List Route → List Route → List Route
  or_else table [] = table
  or_else table (rt ∷ rts) = rt ∷ rts

  -- A file that can be read replaces the routing table by the routes of its lines up to the first bad
  -- one, in their order; if there are none, the table stays as it was. The result is success exactly
  -- if no line is bad.
  pub sr_load_rt_lem :
      (lines : List (List ℕ)) (f : Fields) (table : List Route)
      → sr_load_rt (some lines) f table
        ≡ (or_else table (routes_of lines f).0, (routes_of lines f).1)
  unfolding sr_load_rt load_lines routes_of sr_add_rt_entry
  sr_load_rt_lem [] f table = refl
  sr_load_rt_lem (line ∷ lines) f table = elim (Option-cases (route_of (sscanf line f))) [
    | inl e ↦ ground (arith, e)
    | inr (rt, e) ↦ ground (arith, e, load_lines_cleared lines (sscanf line f) (rt ∷ []))
  ]
