-- ===== src/Managers/Presets/Defaults.antt =====
-- The default preset: at most one row is marked, and the resolver finds the one marked last.
use netherbrain.Prelude.{
  String, Bool, true, false, Option, none, some, [], ◌∷◌, ◌&&◌, ◌≡◌, refl, ap, sym, find, or_text,
  arith, eq_iff, ◌==◌, ◌∙◌, Bool-cases, inl, inr, if◌then◌else◌, subst,
}
use netherbrain.Prelude.Dict
use netherbrain.Prelude.Dict.{Dict, get-set, get-pop}
use netherbrain.Prelude.Entries.{find-set}
use netherbrain.Prelude.Results.{Result, ok, guarded-ok, required-ok, ok-injective}
use netherbrain.Execution.Resolver.{PresetRow, Database, load_preset}
use netherbrain.Managers.Conversations.{assigned}
use netherbrain.Managers.Presets.{
  Error, PresetCreate, PresetUpdate, create_preset, update_preset, delete_preset, get_preset,
  created, updated, without_default, unset_all_defaults, store, is_empty, sets_default,
  duplicate_preset, preset_not_found, default_preset_conflict, apply_changes,
}

-- No two presets are marked as the default.
abbrev pub HasOneDefault : Dict PresetRow → Type 0
HasOneDefault m =
    (k l : String) (a b : PresetRow)
    → Dict.get k m ≡ some a
    → Dict.get l m ≡ some b
    → a.is_default ≡ true
    → b.is_default ≡ true
    → k ≡ l

abbrev HasNoDefault : Dict PresetRow → Type 0
HasNoDefault m = (k : String) (a : PresetRow) → Dict.get k m ≡ some a → a.is_default ≡ false

is_marked : Option PresetRow → Bool
is_marked none = false
is_marked (some row) = row.is_default

without_default-HasNoDefault : (m : Dict PresetRow) → HasNoDefault (without_default m)
unfolding Dict.get is_marked
without_default-HasNoDefault [] k a g = cc
without_default-HasNoDefault ((j, row) ∷ m) k a g = elim (Bool-cases (j == k)) [
  | inl e ↦ ap is_marked (sym g) ∙ rw e refl
  | inr e ↦ without_default-HasNoDefault m k a (ground arith)
]

find-without_default :
    (m : Dict PresetRow) → find (λ p. p.is_default) (Dict.values (without_default m)) ≡ none
unfolding find
find-without_default [] = refl
find-without_default ((j, row) ∷ m) = find-without_default m

-- A row that is stored where no row is marked.
set-HasOneDefault :
    (k : String) (row : PresetRow) (m : Dict PresetRow)
    → HasNoDefault m
    → HasOneDefault (Dict.set k row m)
set-HasOneDefault k row m h i j a b g g' t t' =
    ground (arith, h i a, h j b, get-set k i row m, get-set k j row m, eq_iff k i, eq_iff k j)

-- A row that is marked only where the row before it was.
keep-HasOneDefault :
    (k : String) (row : PresetRow) (m : Dict PresetRow)
    → (row.is_default ≡ true
        → (old : PresetRow) × (Dict.get k m ≡ some old) × (old.is_default ≡ true))
    → HasOneDefault m
    → HasOneDefault (Dict.set k row m)
keep-HasOneDefault k row m same h i j a b g g' t t' = elim (Bool-cases row.is_default) [
  | inl e ↦
      let (old, there, marked) = same e in
      ground (
        arith,
        h i j a b,
        h i j old b,
        h i j a old,
        get-set k i row m,
        get-set k j row m,
        eq_iff k i,
        eq_iff k j,
      )
  | inr e ↦ ground (arith, h i j a b, get-set k i row m, get-set k j row m, eq_iff k i, eq_iff k j)
]

-- The presets that a stored row leaves, by whether the row is to be the default.
abbrev stored : String → PresetRow → (is_default : Bool) → Database → Database
stored k row is_default db = store k row (if is_default then unset_all_defaults db else db)

stored-HasOneDefault :
    (k : String) (row : PresetRow) (d : Bool) (db : Database)
    → (d ≡ false
        → row.is_default ≡ true
        → (old : PresetRow) × (Dict.get k db.presets ≡ some old) × (old.is_default ≡ true))
    → HasOneDefault db.presets
    → HasOneDefault (stored k row d db).presets
stored-HasOneDefault k row true db same h =
    set-HasOneDefault k row (without_default db.presets) (without_default-HasNoDefault db.presets)
stored-HasOneDefault k row false db same h = keep-HasOneDefault k row db.presets (same refl) h

load_preset-stored :
    (k : String) (row : PresetRow) (db : Database)
    → row.is_default ≡ true
    → load_preset (stored k row true db) none ≡ ok row
unfolding load_preset
load_preset-stored k row db marked =
    rw
      (find-set (λ p. p.is_default) k row (without_default db.presets)
        (find-without_default db.presets) marked)
      refl

-- What a successful call has stored.
create_preset-stored :
    (body : PresetCreate) (fresh : String) (raced : Bool) (db db' : Database)
    → create_preset body fresh raced db ≡ ok db'
    → stored
        (or_text body.preset_id fresh)
        (created (or_text body.preset_id fresh) body)
        body.is_default
        db
      ≡ db'
unfolding create_preset
create_preset-stored body fresh raced db db' h =
    let k = or_text body.preset_id fresh in
    let (_, rest) = guarded-ok (Dict.has k db.presets) (duplicate_preset k) _ db' h in
    let (_, end) = guarded-ok (body.is_default && raced) default_preset_conflict _ db' rest in
    ok-injective _ _ end

update_preset-stored :
    (k : String) (body : PresetUpdate) (raced : Bool) (db db' : Database)
    → is_empty body ≡ false
    → update_preset k body raced db ≡ ok db'
    → (old : PresetRow) × (Dict.get k db.presets ≡ some old)
      × (stored k (updated body old) (sets_default body) db ≡ db')
unfolding update_preset get_preset
update_preset-stored k body raced db db' e h =
    let (old, there, rest) =
      required-ok (Dict.get k db.presets) (preset_not_found k)
        (λ preset. if is_empty body then ok db else apply_changes k body raced db preset) db' h in
    let applied : apply_changes k body raced db old ≡ ok db' = ground arith in
    let (_, end) = guarded-ok (sets_default body && raced) default_preset_conflict _ db' applied in
    (old, there, ok-injective _ _ end)

-- A call of the manager that writes.
pub data Call : Type 0 where
  create : (body : PresetCreate) (fresh : String) (raced : Bool) → Call
  update : (preset_id : String) (body : PresetUpdate) (raced : Bool) → Call
  delete : (preset_id : String) → Call

abbrev pub perform : Call → Database → Result Error Database
perform (create body fresh raced) db = create_preset body fresh raced db
perform (update preset_id body raced) db = update_preset preset_id body raced db
perform (delete preset_id) db = delete_preset preset_id db

update-HasOneDefault :
    (k : String) (body : PresetUpdate) (raced : Bool) (db db' : Database)
    → update_preset k body raced db ≡ ok db'
    → HasOneDefault db.presets
    → HasOneDefault db'.presets
unfolding update_preset get_preset
update-HasOneDefault k body raced db db' h one = elim (Bool-cases (is_empty body)) [
  | inl e ↦
      let (old, there, rest) =
        required-ok (Dict.get k db.presets) (preset_not_found k)
          (λ preset. if is_empty body then ok db else apply_changes k body raced db preset) db' h in
      let kept : Path (Result Error Database) (ok db) (ok db') = ground arith in
      subst (λ d. HasOneDefault d.presets) (ok-injective db db' kept) one
  | inr e ↦
      let (old, there, same) = update_preset-stored k body raced db db' e h in
      subst (λ d. HasOneDefault d.presets) same
        (stored-HasOneDefault k (updated body old) (sets_default body) db
          (λ unset marked. (old, there, unmarked body.is_default old unset marked)) one)
]
  where
    unmarked :
        (o : Option Bool) (old : PresetRow)
        → assigned o false ≡ false
        → assigned o old.is_default ≡ true
        → old.is_default ≡ true
    unmarked none old unset marked = marked
    unmarked (some d) old unset marked = absurd (ground arith)

-- Every call that creates, changes or deletes a preset and succeeds leaves at most one default preset
-- in a table that has at most one.
pub perform-HasOneDefault :
    (c : Call) (db db' : Database)
    → HasOneDefault db.presets
    → perform c db ≡ ok db'
    → HasOneDefault db'.presets
unfolding delete_preset get_preset
perform-HasOneDefault (create body fresh raced) db db' one h =
    let k = or_text body.preset_id fresh in
    subst (λ d. HasOneDefault d.presets) (create_preset-stored body fresh raced db db' h)
      (stored-HasOneDefault k (created k body) body.is_default db
        (λ unset marked. absurd (ground arith)) one)
perform-HasOneDefault (update preset_id body raced) db db' one h =
    update-HasOneDefault preset_id body raced db db' h one
perform-HasOneDefault (delete preset_id) db db' one h =
    let (old, there, end) =
      required-ok (Dict.get preset_id db.presets) (preset_not_found preset_id)
        (λ _. ok (record db { presets = Dict.pop preset_id db.presets })) db' h in
    subst (λ d. HasOneDefault d.presets) (ok-injective _ _ end)
      (λ i j a b g g' t t'.
        ground (arith, one i j a b, get-pop preset_id i db.presets, get-pop preset_id j db.presets))

-- A preset that is created as the default is the one that the resolver then takes where a request
-- names no preset, whichever was the default before.
pub load_preset-create_preset :
    (body : PresetCreate) (fresh : String) (raced : Bool) (db db' : Database)
    → body.is_default ≡ true
    → create_preset body fresh raced db ≡ ok db'
    → load_preset db' none ≡ ok (created (or_text body.preset_id fresh) body)
load_preset-create_preset body fresh raced db db' marked h =
    let k = or_text body.preset_id fresh in
    let same = create_preset-stored body fresh raced db db' h in
    let moved : stored k (created k body) true db ≡ db' =
      ap (λ d. stored k (created k body) d db) (sym marked) ∙ same in
    ap (λ d. load_preset d none) (sym moved) ∙ load_preset-stored k (created k body) db marked
