-- ===== src/RedisCache/Laws.antt =====
-- What the storage adapter relies on in a cache that works, as laws over what its keys hold.
use mirai_app.Prelude.{ℕ, ◌≤◌, ◌≡◌, ◌⊎◌, Bool, true, false, Option, none, some}
use mirai_app.RedisCache.Client.{Text, CacheEntry}
use mirai_app.RedisCache.{CacheOps, text_given}

-- A key may have lost its content.
abbrev pub IsBelow {ℓ} : {A : Type ℓ} → Option A → Option A → Type ℓ
IsBelow a b = (a ≡ none) ⊎ (a ≡ b)

abbrev pub content_of : {D : Type 0} → Option (CacheEntry D) → Option D
content_of none = none
content_of (some e) = some e.content

-- `up c`: the cache can be reached; `view t k c`: the content that a `get` of `k` gives at `t`.
pub record IsCache {C D : Type 0} (ops : CacheOps C D) (up : C → Bool)
    (view : ℕ → Text → C → Option D) : Type 0 where
  pub get-up : (now : ℕ) (key : Text) (c : C) → up (ops.get now key c).1 ≡ up c
  pub set-up :
      (now : ℕ) (key : Text) (d : D) (etag : Option Text) (ttl : ℕ) (c : C)
      → up (ops.set now key d etag ttl c).1 ≡ up c
  pub delete-up : (key : Text) (c : C) → up (ops.delete key c).1 ≡ up c
  pub acquire-up :
      (now : ℕ) (key : Text) (ttl : ℕ) (id : Text) (c : C)
      → up (ops.acquire_lock now key ttl id c).1 ≡ up c
  pub get-view : (now : ℕ) (key : Text) (c : C) → content_of (ops.get now key c).0 ≡ view now key c
  pub view-later : (now t : ℕ) (k : Text) (c : C) → now ≤ t → IsBelow (view t k c) (view now k c)
  pub get-below :
      (t now : ℕ) (k key : Text) (c : C) → IsBelow (view t k (ops.get now key c).1) (view t k c)
  pub delete-below :
      (t : ℕ) (k key : Text) (c : C) → IsBelow (view t k (ops.delete key c).1) (view t k c)
  pub delete-view :
      (t : ℕ) (key : Text) (c : C) → up c ≡ true → view t key (ops.delete key c).1 ≡ none
  pub invalidate-below :
      (t now : ℕ) (k pattern : Text) (c : C)
      → IsBelow (view t k (ops.invalidate_pattern now pattern c)) (view t k c)
  pub acquire-below :
      (t now : ℕ) (k key : Text) (ttl : ℕ) (id : Text) (c : C)
      → IsBelow (view t k (ops.acquire_lock now key ttl id c).1) (view t k c)
  pub release-below :
      (t now : ℕ) (k key id : Text) (c : C)
      → IsBelow (view t k (ops.release_lock now key id c).1) (view t k c)
  pub set-view :
      (t now : ℕ) (key : Text) (d : D) (etag : Option Text) (ttl : ℕ) (c : C)
      → (ops.set now key d etag ttl c).0.0 ≡ true
      → IsBelow (view t key (ops.set now key d etag ttl c).1) (some d)
  pub set-succeeds :
      (now : ℕ) (key : Text) (d : D) (etag : Option Text) (ttl : ℕ) (c : C)
      → up c ≡ true
      → text_given etag ≡ false
      → (ops.set now key d etag ttl c).0.0 ≡ true
