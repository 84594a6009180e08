-- ===== src/Transport/Bridge/Order.antt =====
-- The ids of a stream, a cursor among them, and what XREAD gives of it.
use netherbrain.Prelude.{String, Bool, true, false, List, [], ◌∷◌, ◌++◌, ◌≡◌, All, All-map}
use netherbrain.Transport.Bridge.{Entry}

-- The order of the ids, with the cursor first.
module _ (newer : String → String → Bool) where
  -- The cursor stands between the two parts.
  abbrev pub IsSplit : String → List Entry → List Entry → Type 0
  IsSplit cursor done rest =
      All (λ (e : Entry). newer cursor e.stream_id ≡ false) done
      × All (λ (e : Entry). newer cursor e.stream_id ≡ true) rest

  -- Ids grow along the stream.
  abbrev pub IsOrdered : List Entry → Type 0
  IsOrdered [] = Unit
  IsOrdered (e ∷ es) =
      (newer e.stream_id e.stream_id ≡ false)
      × All
          (λ (f : Entry).
            (newer e.stream_id f.stream_id ≡ true) × (newer f.stream_id e.stream_id ≡ false))
          es
      × IsOrdered es

  -- XREAD as Redis documents it: of the entries behind the cursor it gives some from the front, and
  -- none only where there are none.
  pub record IsXread (xread : String → List Entry → List Entry) : Type 0 where
    pub front :
        (cursor : String) (done rest : List Entry)
        → IsSplit cursor done rest
        → (more : List Entry) × (xread cursor (done ++ rest) ++ more ≡ rest)
    pub progress :
        (cursor : String) (done rest : List Entry)
        → IsSplit cursor done rest
        → xread cursor (done ++ rest) ≡ []
        → rest ≡ []

  -- An id splits the stream behind its own entry.
  pub ordered-IsSplit :
      (done : List Entry) (e : Entry) (later : List Entry)
      → IsOrdered (done ++ (e ∷ later))
      → IsSplit e.stream_id (done ++ (e ∷ [])) later
  ordered-IsSplit [] e later h = (
    (h.0, tt),
    All-map (λ f. (newer e.stream_id f.stream_id ≡ true) × (newer f.stream_id e.stream_id ≡ false))
        (λ f. newer e.stream_id f.stream_id ≡ true) later (λ f p. p.0) h.1,
  )
  ordered-IsSplit (d ∷ done) e later h =
      let behind = ordered-IsSplit done e later h.2 in ((at_e done h.1, behind.0), behind.1)
    where
      at_e :
          (done : List Entry)
          → All
              (λ (f : Entry).
                (newer d.stream_id f.stream_id ≡ true) × (newer f.stream_id d.stream_id ≡ false))
              (done ++ (e ∷ later))
          → newer e.stream_id d.stream_id ≡ false
      at_e [] a = a.0.1
      at_e (x ∷ xs) a = at_e xs a.1
