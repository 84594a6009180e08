-- ===== src/Managers/Users/Keys.antt =====
-- API keys from their creation to their use: managers/users.py with the middleware's lookup.
use netherbrain.Prelude.{
  ℕ, String, Bool, true, false, Option, none, some, ◌==◌, ◌≡◌, ◌≢◌, refl, sym, ap, ◌∙◌, subst,
  arith, some-injective, find, eq_iff, Option-cases, inl, inr, ◌&&◌, not,
}
use netherbrain.Prelude.Dict
use netherbrain.Prelude.Dict.{Dict, get-set, get-set_self, get-pop_self}
use netherbrain.Prelude.Entries.{find-some, find-set}
use netherbrain.Prelude.Results.{ok, ◌>>◌, raise_if, guarded-ok, required-ok, ok-pair}
use netherbrain.Tables.{User, ApiKey, Database}
use netherbrain.Middleware.{AuthContext, Payload, resolve_api_key, is_expired, of_row}
use netherbrain.Middleware.Decision.{resolve_api_key-cases}
use netherbrain.Managers.Users.{
  Error, store_key, make_api_key, is_taken, create_api_key, revoke_api_key, expiry, raw_key_of,
}
use netherbrain.Managers.Users.Validity.{IsValid, store_key-IsValid}

not_taken :
    (k : ApiKey) (db : Database)
    → is_taken k db ≡ false
    → (Dict.get k.key_id db.api_keys ≡ none)
      × (find (λ l. l.key_hash == k.key_hash) (Dict.values db.api_keys) ≡ none)
unfolding is_taken
not_taken k db h = ground arith

==→≡ : (x y : String) → (x == y) ≡ true → x ≡ y
==→≡ x y h = ground (arith, eq_iff x y)

module _ (sha256 : String → String) (verify_jwt : String → String → Option Payload)
    (later : ℕ) where
  found_key :
      (k : ApiKey) (u : User) (db : Database) (raw : String)
      → is_taken k db ≡ false
      → sha256 raw ≡ k.key_hash
      → Dict.get k.user_id db.users ≡ some u
      → resolve_api_key sha256 verify_jwt later (store_key k db) raw ≡ of_row later k u
  unfolding resolve_api_key
  found_key k u db raw t e g =
      let free = not_taken k db t in
      let hit : find (λ l. l.key_hash == sha256 raw) (Dict.values (Dict.set k.key_id k db.api_keys))
          ≡ some k =
        subst
          (λ h.
            find (λ l. l.key_hash == h) (Dict.values (Dict.set k.key_id k db.api_keys)) ≡ some k)
          (sym e)
          (find-set (λ l. l.key_hash == k.key_hash) k.key_id k db.api_keys free.1
            (ground (arith, eq_iff k.key_hash k.key_hash))) in
      rw (hit, g) refl

  -- A key that is created authenticates, by its raw form, as its user, with the user's role, until it
  -- expires, as long as the user is active.
  pub resolve_api_key-create_api_key :
      (db : Database) (user_id name : String) (days : Option ℕ) (key_id secret : String) (now : ℕ)
      (u : User) (db' : Database) (raw : String)
      → create_api_key sha256 db user_id name days key_id secret now ≡ ok (db', raw)
      → Dict.get user_id db.users ≡ some u
      → u.is_active ≡ true
      → is_expired later (expiry now days) ≡ false
      → resolve_api_key sha256 verify_jwt later db' raw
        ≡ some (record { user_id = u.user_id; role = u.role; key_id = key_id })
  unfolding create_api_key make_api_key
  resolve_api_key-create_api_key db user_id name days key_id secret now u db' raw c g a x =
      let row : ApiKey = make_api_key sha256 user_id name key_id secret (expiry now days) now in
      let (w, _, h) =
        required-ok (Dict.get user_id db.users) Error.user_not_found
          (λ _.
            raise_if (is_taken row db) Error.integrity_error
            >> ok (store_key row db, raw_key_of key_id secret))
          (db', raw) c in
      let (t, k) =
        guarded-ok (is_taken row db) Error.integrity_error
          (ok (store_key row db, raw_key_of key_id secret)) (db', raw) h in
      let (d, r) = ok-pair (store_key row db) db' (raw_key_of key_id secret) raw k in
      rw (d, r, found_key row u db (raw_key_of key_id secret) t refl g, a, x) refl

  refused :
      (k : ApiKey) (u : User) (auth : AuthContext)
      → k.is_active ≡ false
      → of_row later k u ≡ some auth
      → ⊥
  refused k u auth a r = ground arith

  inactive-none :
      (db : Database) (j raw : String) (k : ApiKey)
      → IsValid db
      → Dict.get j db.api_keys ≡ some k
      → k.is_active ≡ false
      → sha256 raw ≡ k.key_hash
      → resolve_api_key sha256 verify_jwt later db raw ≡ none
  inactive-none db j raw k v g a e =
      elim (Option-cases (resolve_api_key sha256 verify_jwt later db raw)) [
        | inl h ↦ h
        | inr (auth, h) ↦
            let (l, u, f, _, r) = resolve_api_key-cases sha256 verify_jwt later db raw auth h in
            let (i, m, q) = find-some (λ x. x.key_hash == sha256 raw) db.api_keys l v.keys_once f in
            let same : l.key_hash ≡ k.key_hash = ==→≡ l.key_hash (sha256 raw) q ∙ e in
            let at_j : i ≡ j = v.one_hash i j l k m g same in
            let one : l ≡ k =
              some-injective l k (sym m ∙ ap (λ y. Dict.get y db.api_keys) at_j ∙ g) in
            absurd (refused l u auth (ap (λ y. y.is_active) one ∙ a) r)
      ]

  -- After a key is revoked in valid tables, no text with its hash authenticates, and every other
  -- key is as it was.
  pub resolve_api_key-revoke_api_key :
      (db : Database) (key_id caller : String) (admin : Bool) (db' : Database) (k : ApiKey)
      (raw j : String)
      → IsValid db
      → revoke_api_key db key_id caller admin ≡ ok (db', k)
      → sha256 raw ≡ k.key_hash
      → j ≢ key_id
      → (resolve_api_key sha256 verify_jwt later db' raw ≡ none)
        × (Dict.get j db'.api_keys ≡ Dict.get j db.api_keys)
  unfolding revoke_api_key
  resolve_api_key-revoke_api_key db key_id caller admin db' k raw j v h s n =
      let (old, g, r) =
        required-ok (Dict.get key_id db.api_keys) Error.key_not_found
          (λ key.
            raise_if (not admin && not (key.user_id == caller)) Error.key_not_found
            >> ok
                (store_key (record key { is_active = false }) db, record key { is_active = false }))
          (db', k) h in
      let off : ApiKey = record old { is_active = false } in
      let (_, o) =
        guarded-ok (not admin && not (old.user_id == caller)) Error.key_not_found
          (ok (store_key off db, off)) (db', k) r in
      let (d, e) = ok-pair (store_key off db) db' off k o in
      let own = v.own_key key_id old g in
      let v' = store_key-IsValid off db (λ j a b c. v.one_hash j key_id a old b g c ∙ sym own) v in
      rw d (
        inactive-none (store_key off db) off.key_id raw off v'
            (get-set_self off.key_id off db.api_keys) refl (s ∙ ap (λ x. x.key_hash) e),
        ground (arith, get-set off.key_id j off db.api_keys, eq_iff off.key_id j),
      )
