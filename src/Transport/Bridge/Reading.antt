-- ===== src/Transport/Bridge/Reading.antt =====
-- What the loop over the entries of one answer does.
use netherbrain.Prelude.{
  String, Bool, none, some, List, [], ◌∷◌, ◌++◌, ◌≡◌, refl, sym, ap, ◌∙◌, subst, arith,
  if◌then◌else◌, append_assoc, append-nil, Bool-cases, inl, inr, ◌⊎◌,
}
use netherbrain.Transport.Bridge.{
  Entry, terminal, Bridge, sse_event, is_terminal, took, read_entries,
}
use netherbrain.Transport.Bridge.Order.{IsSplit, IsOrdered, ordered-IsSplit}

module _ (is_terminal_type : String → Bool) where
  -- The entries up to the first that ends the run, and that one.
  abbrev pub through : List Entry → List Entry
  through [] = []
  through (e ∷ es) = e ∷ (if is_terminal is_terminal_type e then [] else through es)

  abbrev pub shown : List Entry → List (String × String)
  shown [] = []
  shown (e ∷ es) = sse_event is_terminal_type e ++ shown es

  -- What reading entries does, whatever comes behind them.
  pub read_entries-shown :
      (es more : List Entry) (b : Bridge)
      → b.stopped ≡ none
      → let c = read_entries is_terminal_type es b in
        ((c.stopped ≡ some terminal) × (c.yielded ≡ b.yielded ++ shown (through (es ++ more))))
        ⊎ ((c.stopped ≡ none)
            × ((c.yielded ++ shown (through more)) ≡ b.yielded ++ shown (through (es ++ more))))
  unfolding read_entries
  read_entries-shown [] more b h = inr (h, refl)
  read_entries-shown (e ∷ es) more b h = elim (Bool-cases (is_terminal is_terminal_type e)) [
    | inl t ↦
        inl
          (rw t (refl, ap (λ l. b.yielded ++ l) (sym (append-nil (sse_event is_terminal_type e)))))
    | inr t ↦
        let c = read_entries-shown es more (took is_terminal_type e b) h in
        let behind =
          append_assoc b.yielded (sse_event is_terminal_type e) (shown (through (es ++ more))) in
        elim c [
          | inl (stop, all) ↦ inl (rw t (stop, all ∙ behind))
          | inr (live, all) ↦ inr (rw t (live, all ∙ behind))
        ]
  ]

  -- Reading entries moves the cursor behind them.
  pub read_entries-IsSplit :
      (newer : String → String → Bool) (es done later : List Entry) (b : Bridge)
      → (read_entries is_terminal_type es b).stopped ≡ none
      → IsOrdered newer (done ++ (es ++ later))
      → IsSplit newer b.cursor done (es ++ later)
      → IsSplit newer (read_entries is_terminal_type es b).cursor (done ++ es) later
  unfolding read_entries
  read_entries-IsSplit newer [] done later b live o s =
      subst (λ d. IsSplit newer b.cursor d later) (sym (append-nil done)) s
  read_entries-IsSplit newer (e ∷ es) done later b live o s =
      elim (Bool-cases (is_terminal is_terminal_type e)) [
        | inl t ↦ absurd (ground arith)
        | inr t ↦
            let moved = append_assoc done (e ∷ []) in
            let onward =
              read_entries-IsSplit newer es (done ++ (e ∷ [])) later (took is_terminal_type e b)
                (ground arith) (subst (IsOrdered newer) (sym (moved (es ++ later))) o)
                (ordered-IsSplit newer done e (es ++ later) o) in
            rw t (
              subst
                (λ d.
                  IsSplit newer
                    (read_entries is_terminal_type es (took is_terminal_type e b)).cursor d later)
                (moved es) onward)
      ]
