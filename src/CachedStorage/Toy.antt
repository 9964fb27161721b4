-- ===== src/CachedStorage/Toy.antt =====
-- A Redis for the tests: a list of cells, each with the time until which it lives. Its SETEX may be
-- broken, and its KEYS knows the star at the end of a pattern.
use mirai_app.Prelude.{
  ℕ, ◌+◌, ◌*◌, ◌≤◌, ◌≡◌, ◌⊎◌, inl, inr, refl, Bool-cases, nat_eq, ◌&&◌, ap, Bool, true, false,
  Option, none, some, List, [], ◌∷◌, arith, ltb, if◌then◌else◌, length,
}
use mirai_app.Prelude.Js.{done, failed, Thrown, same_text, same_text-eq}
use mirai_app.RedisCache.Client.{Text, Value, RedisClient, has_key, IsRedis}
use mirai_app.RedisCache.Working.{IsWorking}

pub record Cell (D : Type 0) : Type 0 where
  pub key : Text
  pub value : Value D
  pub until : ℕ

has_key-same : (ks : List Text) (j k : Text) → same_text j k ≡ true → has_key j ks ≡ has_key k ks
has_key-same ks j k e = ap (λ t. has_key t ks) (same_text-eq j k e)

-- A pattern without a star but at its end.
unfoldable pub glob_end : Text → Text → Bool
glob_end [] [] = true
glob_end [] (k ∷ ks) = false
glob_end (p ∷ ps) [] = nat_eq p 42
glob_end (p ∷ ps) (k ∷ ks) =
    let rest = glob_end ps ks in if nat_eq p 42 then true else nat_eq p k && rest

module _ {D : Type 0} where
  unfoldable pub find : ℕ → Text → List (Cell D) → Option (Value D)
  find now key [] = none
  find now key (c ∷ cs) =
      let rest = find now key cs in
      if same_text c.key key then (if ltb now c.until then some c.value else none) else rest

  unfoldable pub without : List Text → List (Cell D) → List (Cell D)
  without ks [] = []
  without ks (c ∷ cs) = let rest = without ks cs in if has_key c.key ks then rest else c ∷ rest

  abbrev free : Option (Value D) → Bool
  free none = true
  free (some v) = false

  unfoldable pub keys_matching : Text → List (Cell D) → List Text
  unfolding glob_end
  keys_matching pattern [] = []
  keys_matching pattern (c ∷ cs) =
      let rest = keys_matching pattern cs in if glob_end pattern c.key then c.key ∷ rest else rest

  keys_matching-glob :
      (pattern key : Text) (r : List (Cell D))
      → glob_end pattern key ≡ false
      → has_key key (keys_matching pattern r) ≡ false
  unfolding keys_matching has_key
  keys_matching-glob pattern key [] h = refl
  keys_matching-glob pattern key (c ∷ r) h = elim (Bool-cases (same_text c.key key)) [
    | inl e ↦
        let same : c.key ≡ key = same_text-eq c.key key e in
        ground (arith, keys_matching-glob pattern key r h, ap (glob_end pattern) same, h)
    | inr e ↦ ground (arith, keys_matching-glob pattern key r h, e)
  ]

  abbrev pub toy : Bool → RedisClient (List (Cell D)) D
  toy broken = record {
    connect = λ r. done r;
    quit = λ r. done r;
    get = λ now key r. done (find now key r);
    set_ex = λ now key ttl v r.
        if broken
        then failed (Thrown.plain "OOM")
        else done (record { key = key; value = v; until = now + 1000 * ttl } ∷ r);
    set_nx = λ now key ttl v r.
        if free (find now key r)
        then done (true, record { key = key; value = v; until = now + 1000 * ttl } ∷ r)
        else done (false, r);
    del = λ ks r. done (length r, without ks r);
    keys = λ now pattern r. done (keys_matching pattern r);
    glob = glob_end;
  }

  find-without :
      (later : ℕ) (ks : List Text) (other : Text) (r : List (Cell D))
      → find later other (without ks r) ≡ (if has_key other ks then none else find later other r)
  unfolding find without
  find-without later ks other [] = ground arith
  find-without later ks other (c ∷ r) =
      ground (arith, find-without later ks other r, has_key-same ks c.key other)

  find-later :
      (now t : ℕ) (key : Text) (r : List (Cell D))
      → now ≤ t
      → (find t key r ≡ none) ⊎ (find t key r ≡ find now key r)
  unfolding find
  find-later now t key [] h = inl refl
  find-later now t key (c ∷ r) h = ground (arith, find-later now t key r h)

  pub toy-IsRedis : (broken : Bool) → IsRedis (toy broken)
  unfolding find
  toy-IsRedis broken = record {
    set_ex-get = λ now later ttl key other v r r' e. ground (arith, e);
    set_nx-get = λ now later ttl key other v r r' e. ground (arith, e);
    set_nx-free = λ now ttl key v r r' e. ground (arith, e);
    set_nx-refused = λ now later ttl key other v r r' e. ground (arith, e);
    del-get = λ later n ks other r r' e. ground (arith, e, find-without later ks other r);
    connect-get = λ later other r r' e. ground (arith, e);
    quit-get = λ later other r r' e. ground (arith, e);
    keys-glob = λ now pattern key r ks e h. ground (arith, e, keys_matching-glob pattern key r h);
  }

  pub toy-IsWorking : IsWorking (toy false)
  toy-IsWorking = record {
    sets = λ now key ttl v r. (_, refl);
    dels = λ ks r. (_, _, refl);
    expires = λ now t key r h. ground (arith, find-later now t key r h);
  }
