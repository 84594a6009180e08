-- ===== src/Streaming/Agui/Sets.antt =====
-- The set of open tool calls: membership after `add` and `discard`, and how often an id is listed.
use netherbrain.Prelude.{
  ℕ, suc, ◌+◌, String, true, false, List, [], ◌∷◌, ◌++◌, ◌≡◌, refl, arith, ◌==◌, eq_iff,
  if◌then◌else◌, ltb,
}
use netherbrain.Streaming.Agui.State.{member, include, discard}

-- How often an id is listed.
unfoldable pub occurrences : String → List String → ℕ
occurrences k [] = 0
occurrences k (j ∷ s) = if j == k then suc (occurrences k s) else occurrences k s

pub member-occurrences : (k : String) (s : List String) → member k s ≡ ltb 0 (occurrences k s)
unfolding member occurrences
member-occurrences k [] = refl
member-occurrences k (j ∷ s) = ground (arith, member-occurrences k s)

occurrences-snoc :
    (k j : String) (s : List String)
    → occurrences k (s ++ (j ∷ [])) ≡ occurrences k s + (if j == k then 1 else 0)
unfolding occurrences
occurrences-snoc k j [] = ground arith
occurrences-snoc k j (i ∷ s) = ground (arith, occurrences-snoc k j s)

pub occurrences-include :
    (k j : String) (s : List String)
    → occurrences k (include j s) ≡ (
        if j == k
        then (if member j s then occurrences k s else suc (occurrences k s))
        else occurrences k s)
unfolding include
occurrences-include k j s = ground (arith, occurrences-snoc k j s)

pub occurrences-discard :
    (k j : String) (s : List String)
    → occurrences k (discard j s) ≡ (if j == k then 0 else occurrences k s)
unfolding discard occurrences
occurrences-discard k j [] = ground arith
occurrences-discard k j (i ∷ s) =
    ground (arith, occurrences-discard k j s, eq_iff i j, eq_iff i k, eq_iff j k)

pub member-include :
    (k j : String) (s : List String)
    → member k (include j s) ≡ (if j == k then true else member k s)
member-include k j s = ground (
  arith,
  member-occurrences k (include j s),
  member-occurrences k s,
  member-occurrences j s,
  occurrences-include k j s,
  eq_iff j k,
)

pub member-discard :
    (k j : String) (s : List String)
    → member k (discard j s) ≡ (if j == k then false else member k s)
member-discard k j s = ground (
  arith,
  member-occurrences k (discard j s),
  member-occurrences k s,
  occurrences-discard k j s,
  eq_iff j k,
)
