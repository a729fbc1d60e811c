-- ===== src/Auth/Lifecycle.antt =====
-- A key from its creation to its revocation.
use invoice_payment_service.Prelude.{
  ℕ, ◌≡◌, refl, ◌∙◌, ap, false, String, Option, some, List, arith, eq_refl, ◌==◌, ==_self,
}
use invoice_payment_service.Errors.{unauthorized, ok, err}
use invoice_payment_service.Domain.{Uuid, Time}
use invoice_payment_service.Domain.ApiKey.{ApiKey, CreateApiKeyResponse}
use invoice_payment_service.Table.{find, exists, amend, update, insert, count}
use invoice_payment_service.Table.Laws.{
  find-insert, find_of_not_exists, not_exists_of_implied, exists-insert, exists-update,
  update-insert, count-insert,
}
use invoice_payment_service.Db.{Db, query, pure, ◌>>=◌}
use invoice_payment_service.Auth.{
  full_key, generate_key, derive_prefix, hash_key, usable, require_api_key, new_api_key, insert_key,
  create_key, env_or_test, prefix_is, revocable, revoked, revoke,
}
use invoice_payment_service.Auth.Keys.{constant_time_eq_iff}
use invoice_payment_service.Auth.Bearer.{has_whitespace, bearer, bearer_token-bearer}

module _ (sha256 : List ℕ → List ℕ) (random : String) (id : Uuid) (now : Time) (b : Uuid)
    (name env : Option String) (db : Db) (plain : has_whitespace random ≡ false)
    (fresh_id : exists (λ (r : ApiKey). r.id == id) db.api_keys ≡ false)
    (fresh_prefix : exists
        (prefix_is (derive_prefix (full_key (env_or_test env) random)))
        db.api_keys
      ≡ false) where
  abbrev full : String
  full = full_key (env_or_test env) random

  abbrev new_key : ApiKey
  new_key = new_api_key id now b name (generate_key sha256 random (env_or_test env))

  abbrev created_db : Db
  created_db = record db { api_keys = insert new_key db.api_keys }

  inserted : insert_key new_key db ≡ (ok id, created_db)
  unfolding insert_key generate_key
  inserted = rw (fresh_id, fresh_prefix) refl

  created :
      create_key sha256 random id now b name env db
      ≡ (ok (record { id = id; prefix = derive_prefix full; key = full }), created_db)
  unfolding create_key generate_key
  created =
      ap
        (λ r.
          (query (λ d. r) >>= λ key_id.
          pure (record { id = key_id; prefix = derive_prefix full; key = full }))
            db)
        inserted

  not_usable_before :
      (later : Time) → exists (usable later (derive_prefix full)) db.api_keys ≡ false
  not_usable_before later =
      not_exists_of_implied (usable later (derive_prefix full)) (prefix_is (derive_prefix full))
        db.api_keys (λ r. ground arith) fresh_prefix

  found :
      (later : Time) → find (usable later (derive_prefix full)) created_db.api_keys ≡ some new_key
  unfolding generate_key
  found later =
      find-insert (usable later (derive_prefix full)) new_key db.api_keys
      ∙ rw (not_usable_before later, eq_refl (derive_prefix full)) refl

  opens : (later : Time) → require_api_key sha256 later (bearer full) created_db ≡ ok b
  unfolding require_api_key generate_key
  opens later =
      rw
        (
          bearer_token-bearer (env_or_test env) random plain,
          found later,
          (constant_time_eq_iff (hash_key sha256 full) (hash_key sha256 full)).1 refl,
        )
        refl

  abbrev revoked_db : Time → Db
  revoked_db at = record created_db {
    api_keys = update (revocable b id) (revoked at) created_db.api_keys;
  }

  revokes : (at : Time) → revoke at b id created_db ≡ (ok tt, revoked_db at)
  unfolding revoke
  revokes at =
      let held : (count (revocable b id) created_db.api_keys == 0) ≡ false =
        ground (arith, count-insert (revocable b id) new_key db.api_keys, ==_self id, ==_self b) in
      rw (held, revoke) refl

  closed :
      (at later : Time)
      → exists (usable later (derive_prefix full)) (revoked_db at).api_keys ≡ false
  closed at later =
      let others : exists (prefix_is (derive_prefix full))
            (update (revocable b id) (revoked at) db.api_keys)
          ≡ false =
        exists-update (prefix_is (derive_prefix full)) (revocable b id) (revoked at) db.api_keys
          (λ r. ground arith)
        ∙ fresh_prefix in
      rw (update-insert (revocable b id) (revoked at) new_key db.api_keys) (
        exists-insert (usable later (derive_prefix full))
          (amend (revocable b id) (revoked at) new_key)
          (update (revocable b id) (revoked at) db.api_keys)
        ∙ rw
            (
              not_exists_of_implied (usable later (derive_prefix full))
                  (prefix_is (derive_prefix full))
                  (update (revocable b id) (revoked at) db.api_keys) (λ r. ground arith) others,
              ==_self id,
              ==_self b,
            )
            (ground arith))

  refuses :
      (at later : Time)
      → require_api_key sha256 later (bearer full) (revoked_db at) ≡ err unauthorized
  unfolding require_api_key
  refuses at later =
      rw
        (
          bearer_token-bearer (env_or_test env) random plain,
          find_of_not_exists (usable later (derive_prefix full)) (revoked_db at).api_keys
              (closed at later),
        )
        refl

-- A key whose id and prefix are new is created, and the key that the answer shows opens requests of the
-- business from then on; once it is revoked, which succeeds, the same key is refused as unauthorized.
-- The random part has no whitespace, as the alphanumeric characters have none.
pub created_key_lifecycle :
    (sha256 : List ℕ → List ℕ) (random : String) (id : Uuid) (now : Time) (b : Uuid)
    (name env : Option String) (db : Db)
    → has_whitespace random ≡ false
    → exists (λ (r : ApiKey). r.id == id) db.api_keys ≡ false
    → exists (prefix_is (derive_prefix (full_key (env_or_test env) random))) db.api_keys ≡ false
    → (resp : CreateApiKeyResponse) × (db' : Db) × (create_key sha256 random id now b name env db
        ≡ (ok resp, db'))
      × ((later : Time) → require_api_key sha256 later (bearer resp.key) db' ≡ ok b)
      × ((at : Time)
          → (db'' : Db) × (revoke at b resp.id db' ≡ (ok tt, db''))
            × ((later : Time)
                → require_api_key sha256 later (bearer resp.key) db'' ≡ err unauthorized))
created_key_lifecycle sha256 random id now b name env db plain fresh_id fresh_prefix = (
  _,
  _,
  created sha256 random id now b name env db plain fresh_id fresh_prefix,
  opens sha256 random id now b name env db plain fresh_id fresh_prefix,
  λ at. (
    _,
    revokes sha256 random id now b name env db plain fresh_id fresh_prefix at,
    refuses sha256 random id now b name env db plain fresh_id fresh_prefix at,
  ),
)
