-- ===== src/CachedStorage/Coherence.antt =====
-- A read after a write gives what was written.
use mirai_app.Prelude.{
  ℕ, zero, suc, ◌+◌, ◌*◌, ◌^◌, ◌≤◌, ◌≡◌, inl, inr, refl, sym, ◌∙◌, Bool, true, false, not, ◌&&◌,
  Option, some, arith, Bool-cases,
}
use mathlib.Core.Path.{subst}
use mirai_app.Prelude.Js.{units, Outcome, done, failed}
use mirai_app.RedisCache.Client.{Text}
use mirai_app.RedisCache.{CacheOps, text_given, default_ttl}
use mirai_app.RedisCache.Laws.{IsBelow, IsCache}
use mirai_app.CachedStorage.Keys.{
  is_library, cache_key, library_key, folders_key, folder_counts_key,
}
use mirai_app.CachedStorage.{
  Document, Payload, document, BaseAdapter, World, WriteResult, written, ensure_initialized,
  invalidate_lists, invalidate_related_caches, tagged, with_version, with_etag, settle_library,
  write_locked, write_library, write_file, write_json, read_miss, read_json, etag_of, max_retries,
  lock_key,
}

IsBelow-trans {ℓ} : {A : Type ℓ} (a b c : Option A) → IsBelow a b → IsBelow b c → IsBelow a c
IsBelow-trans a b c (inl e) h = inl e
IsBelow-trans a b c (inr e) (inl f) = inl (e ∙ f)
IsBelow-trans a b c (inr e) (inr f) = inr (e ∙ f)

module _ {C S B : Type 0} (ops : CacheOps C (Payload B)) (base : BaseAdapter S B)
    (stringify : Payload B → Text) (ids : ℕ → Text) (up : C → Bool)
    (view : ℕ → Text → C → Option (Payload B)) (laws : IsCache ops up view) where
  invalidate_lists-below :
      (t now : ℕ) (k : Text) (c : C)
      → IsBelow (view t k (invalidate_lists ops base stringify ids now c)) (view t k c)
  unfolding invalidate_lists
  invalidate_lists-below t now k c =
      let c1 = (ops.delete folders_key c).1 in
      let c2 = (ops.delete folder_counts_key c1).1 in
      let c3 = ops.invalidate_pattern now (units "courses:*") c2 in
      ground (
        arith,
        laws.delete-below t k folders_key c,
        laws.delete-below t k folder_counts_key c1,
        laws.invalidate-below t now k (units "courses:*") c2,
        laws.invalidate-below t now k (units "folder:*") c3,
      )

  invalidate-below :
      (t now : ℕ) (k path : Text) (c : C)
      → IsBelow
          (view t k (invalidate_related_caches ops base stringify ids now path c))
          (view t k c)
  unfolding invalidate_related_caches
  invalidate-below t now k path c = ground (
    arith,
    laws.delete-below t k library_key c,
    invalidate_lists-below t now k c,
    invalidate_lists-below t now k (ops.delete library_key c).1,
  )

  -- The cache is connected, and known to be.
  abbrev pub IsReady : World C S → Type 0
  IsReady w = (up w.cache ≡ true) × (w.initialized ≡ true)

  -- The storage holds the document, and the cache nothing else from `now` on.
  pub record IsFresh (now : ℕ) (path : Text) (d : Document B) (w : World C S) : Type 0 where
    pub ready : w.initialized ≡ true
    pub stored : base.read_json path w.base ≡ done d
    pub cached : (t : ℕ) → now ≤ t → IsBelow (view t (cache_key path) w.cache) (some (document d))

  -- A document with the same body is stored, and fresh.
  abbrev pub IsSaved : ℕ → Text → Document B → World C S → Type 0
  IsSaved now path d w = (d' : Document B) × IsFresh now path d' w × (d'.body ≡ d.body)

  -- A read of a fresh path gives its document.
  read_fresh :
      (now t : ℕ) (path : Text) (d : Document B) (w : World C S)
      → IsFresh now path d w
      → now ≤ t
      → (read_json ops base stringify ids t path w).0 ≡ done (document d)
  unfolding read_json read_miss ensure_initialized
  read_fresh now t path d w f later =
      ground (arith, laws.get-view t (cache_key path) w.cache, f.cached t later, f.stored, f.ready)

  module _
      (stores : (path : Text) (d : Document B) (s s' : S)
        → base.write_json path d s ≡ (done tt, s')
        → base.read_json path s' ≡ done d) where
    write_file-IsFresh :
        (now : ℕ) (path : Text) (d : Document B) (w : World C S)
        → IsReady w
        → (write_file ops base stringify ids now path d w).0 ≡ written
        → IsFresh now path d (write_file ops base stringify ids now path d w).1
    unfolding write_file
    write_file-IsFresh now path d w u h = go (base.write_json path d w.base) refl
      where
        c : C
        c = (ops.delete (cache_key path) w.cache).1

        go :
            (r : Outcome (Unit {0}) × S)
            → base.write_json path d w.base ≡ r
            → IsFresh now path d (write_file ops base stringify ids now path d w).1
        go (failed e, s) e' = ground (arith, e', h)
        go (done v, s) e' = record {
          ready = ground (arith, e', u);
          stored = ground (arith, e', stores path d w.base s);
          cached = λ t later. ground (
            arith,
            e',
            laws.delete-view t (cache_key path) w.cache u.0,
            invalidate-below t now (cache_key path) path c,
          );
        }

    tagged_body : (now : ℕ) (d : Document B) → (tagged ops base stringify ids now d).body ≡ d.body
    unfolding tagged with_version with_etag
    tagged_body now d = ground arith

    settle-IsSaved :
        (now last : ℕ) (path : Text) (d : Document B) (id : Text) (etag : Option Text)
        (again : Document B → World C S → WriteResult × World C S) (w : World C S)
        → now ≤ last
        → base.read_json path w.base ≡ done d
        → IsReady w
        → ((w' : World C S)
            → IsReady w'
            → (again d w').0 ≡ written
            → IsSaved last path d (again d w').1)
        → (settle_library ops base stringify ids now path d id etag again w).0 ≡ written
        → IsSaved last path d (settle_library ops base stringify ids now path d id etag again w).1
    unfolding settle_library
    settle-IsSaved now last path d id etag again w le st u more h =
        elim (Bool-cases (
          not (ops.set now (cache_key path) (document d) etag default_ttl w.cache).0.0
          && text_given etag)) [
            | inl e ↦
                let eq : settle_library ops base stringify ids now path d id etag again w
                    ≡ again d (record w { cache = c }) =
                  ground (arith, e) in
                subst (λ (r : WriteResult × World C S). IsSaved last path d r.1) (sym eq)
                  (more (record w { cache = c })
                    (ground (
                      arith,
                      laws.set-up now (cache_key path) (document d) etag default_ttl w.cache,
                      u,
                    ))
                    (ground (arith, eq, h)))
            | inr e ↦ (
              d,
              record {
                ready = ground (arith, e, u);
                stored = ground (arith, e, st);
                cached = λ t later. ground (
                  arith,
                  e,
                  u,
                  laws.set-view t now (cache_key path) (document d) etag default_ttl w.cache,
                  laws.set-succeeds now (cache_key path) (document d) etag default_ttl w.cache,
                  invalidate-below t now (cache_key path) path c,
                  laws.release-below t now (cache_key path) lock_key id
                      (invalidate_related_caches ops base stringify ids now path c),
                );
              },
              refl,
            )
          ]
      where
        c : C
        c = (ops.set now (cache_key path) (document d) etag default_ttl w.cache).1

    same_body :
        (last : ℕ) (path : Text) (d d' : Document B) (w : World C S)
        → d.body ≡ d'.body
        → IsSaved last path d w
        → IsSaved last path d' w
    same_body last path d d' w e (x, f, b) = (x, f, b ∙ e)

    -- A round with the lock, if the next rounds do so.
    write_locked-IsSaved :
        (now last : ℕ) (path : Text) (d : Document B) (id : Text)
        (again : Document B → World C S → WriteResult × World C S) (w : World C S)
        → now ≤ last
        → IsReady w
        → ((x : Document B) (w' : World C S)
            → x.body ≡ d.body
            → IsReady w'
            → (again x w').0 ≡ written
            → IsSaved last path d (again x w').1)
        → (write_locked ops base stringify ids now path d id again w).0 ≡ written
        → IsSaved last path d (write_locked ops base stringify ids now path d id again w).1
    unfolding write_locked
    write_locked-IsSaved now last path d id again w le u more h =
        go (base.write_json path d' w.base) refl
      where
        d' : Document B
        d' = tagged ops base stringify ids now d

        go :
            (r : Outcome (Unit {0}) × S)
            → base.write_json path d' w.base ≡ r
            → IsSaved last path d (write_locked ops base stringify ids now path d id again w).1
        go (failed e, s) e' = ground (arith, e', h)
        go (done v, s) e' =
            let seen = ops.get now (cache_key path) w.cache in
            let w1 : World C S = record w { cache = seen.1; base = s } in
            let eq : write_locked ops base stringify ids now path d id again w
                ≡ settle_library ops base stringify ids now path d' id (etag_of seen.0) again w1 =
              ground (arith, e') in
            let body = tagged_body now d in
            let saved =
              settle-IsSaved now last path d' id (etag_of seen.0) again w1 le
                (stores path d' w.base s e')
                (ground (arith, laws.get-up now (cache_key path) w.cache, u))
                (λ (w' : World C S) (u' : IsReady w') (h' : (again d' w').0 ≡ written).
                  same_body last path d d' (again d' w').1 (sym body) (more d' w' body u' h'))
                (ground (arith, eq, h)) in
            subst (λ (r : WriteResult × World C S). IsSaved last path d r.1) (sym eq)
              (same_body last path d' d
                (settle_library ops base stringify ids now path d' id (etag_of seen.0) again w1).1
                body saved)

    -- How long the refused attempts may wait.
    waits : ℕ → ℕ → ℕ
    waits zero retries = 0
    waits (suc left) retries = 100 * 2 ^ retries + waits left (retries + 1)

    three_waits : waits 3 0 ≡ 700
    unfolding waits
    three_waits = refl

    write_library-IsSaved :
        (left retries now last : ℕ) (path : Text) (d : Document B) (w : World C S)
        → now + waits left retries ≤ last
        → IsReady w
        → (write_library ops base stringify ids left retries now path d w).0 ≡ written
        → IsSaved last path d (write_library ops base stringify ids left retries now path d w).1
    unfolding write_library waits
    write_library-IsSaved zero retries now last path d w le u h = cc (h)
    write_library-IsSaved (suc left) retries now last path d w le u h =
        let got = ops.acquire_lock now lock_key 10 (ids retries) w.cache in
        let w1 : World C S = record w { cache = got.1 } in
        let up1 : IsReady w1 =
          ground (arith, laws.acquire-up now lock_key 10 (ids retries) w.cache, u) in
        elim (Bool-cases got.0.0) [
          | inl e ↦
              let again = λ (x : Document B) (w' : World C S).
                write_library ops base stringify ids left (retries + 1) now path x w' in
              let eq : write_library ops base stringify ids (suc left) retries now path d w
                  ≡ write_locked ops base stringify ids now path d got.0.1 again w1 =
                ground (arith, e) in
              subst (λ (r : WriteResult × World C S). IsSaved last path d r.1) (sym eq)
                (write_locked-IsSaved now last path d got.0.1 again w1 (omega (arith, le)) up1
                  (λ (x : Document B) (w' : World C S) (b : x.body ≡ d.body) (u' : IsReady w')
                      (h' : (again x w').0 ≡ written).
                    same_body last path x d (again x w').1 b (
                      write_library-IsSaved left (retries + 1) now last path x w'
                        (omega (arith, le)) u' h'))
                  (ground (arith, eq, h)))
          | inr e ↦
              let later = now + 100 * 2 ^ retries in
              let eq : write_library ops base stringify ids (suc left) retries now path d w
                  ≡ write_library ops base stringify ids left (retries + 1) later path d w1 =
                ground (arith, e) in
              subst (λ (r : WriteResult × World C S). IsSaved last path d r.1) (sym eq)
                (write_library-IsSaved left (retries + 1) later last path d w1 (omega (arith, le))
                  up1 (ground (arith, eq, h)))
        ]

    -- Over a cache with the laws of the interface that is up, and a base adapter that reads back what it
    -- wrote, a read after a write that succeeded, once the waits of the write are over, gives a document
    -- with the body that was written; and the very document that was, if it is not the library.
    pub read-write :
        (now t : ℕ) (path : Text) (d : Document B) (w : World C S)
        → up (ensure_initialized ops base stringify ids w).cache ≡ true
        → (write_json ops base stringify ids now path d w).0 ≡ written
        → now + 700 ≤ t
        → (d' : Document B) × ((read_json ops base stringify ids t path
              (write_json ops base stringify ids now path d w).1).0
            ≡ done (document d'))
          × (d'.body ≡ d.body)
          × (is_library path ≡ false → d' ≡ d)
    unfolding write_json ensure_initialized
    read-write now t path d w u h later = elim (Bool-cases (is_library path)) [
      | inl lib ↦
          let eq : write_json ops base stringify ids now path d w
              ≡ write_library ops base stringify ids max_retries 0 now path d w1 =
            ground (arith, lib) in
          let (d', f, b) =
            write_library-IsSaved max_retries 0 now (now + 700) path d w1
              (omega (arith, three_waits)) ready (ground (arith, eq, h)) in
          (d', rw eq (read_fresh (now + 700) t path d' _ f later), b, λ other. cc (lib, other))
      | inr other ↦
          let eq : write_json ops base stringify ids now path d w
              ≡ write_file ops base stringify ids now path d w1 =
            ground (arith, other) in
          let f = write_file-IsFresh now path d w1 ready (ground (arith, eq, h)) in
          (d, rw eq (read_fresh now t path d _ f (omega (arith, later))), refl, λ e. refl)
    ]
      where
        w1 : World C S
        w1 = ensure_initialized ops base stringify ids w

        ready : IsReady w1
        ready = ground (arith, u)
