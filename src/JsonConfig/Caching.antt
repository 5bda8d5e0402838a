-- ===== src/JsonConfig/Caching.antt =====
-- jsonconfig.cpp, fromFile: what a run of loads leaves in the cache.
use drumlin.Prelude.{
  ℕ, ◌≤◌, ◌≡◌, refl, sym, ◌∙◌, subst, inl, inr, Bool, true, false, Option, none, some, List, [],
  ◌∷◌, arith, ◌==◌, if◌then◌else◌, ==_refl, Bool-cases, All, All-imp, Bytes, eq_bytes, eq_bytes_iff,
  nat_eq, bytes_eq, lookup,
}
use drumlin.JsonConfig.{Configs, Loaded, thrown, returned, cache, keep_new, from_file, load_all}
use mathlib.Core.Option.{some_inj, none-ne-some}
use drumlin.JsonConfig.Loading.{lookup-cache, from_file_cases}
use drumlin.JsonConfig.Entries.{IsFresh, IsCached, never, cache-All, cache-kept, cache-found}

-- What a run of loads keeps, and what it brings if it comes to its end.
pub record Loads {Value : Type 0} (parse : Bytes → Option Value) (base : ℕ) (s t : Configs Value)
    : Type 0 where
  pub fresh : All (IsFresh parse base t) t.jsons
  pub above : base ≤ t.next
  pub files : t.files ≡ s.files
  pub deleted : t.deleted ≡ s.deleted
  pub stays : (q : Bytes) (n : ℕ) → lookup q s.jsons ≡ some n → lookup q t.jsons ≡ some n

abbrev inserted : {Value : Type 0} → Bytes → ℕ → Configs Value → Configs Value
inserted path p s = record s { jsons = cache s.jsons path p }

abbrev LoadsOne :
    {Value : Type 0} → (Bytes → Option Value) → ℕ → Bytes → Configs Value → Loaded Value → Type 0
LoadsOne parse base li s thrown = Unit {0}
LoadsOne parse base li s (returned after p) =
    Loads parse base s (inserted li p after) × IsCached (inserted li p after) li

abbrev pub LoadsAll :
    {Value : Type 0}
    → (Bytes → Option Value)
    → ℕ
    → List Bytes
    → Configs Value
    → Configs Value × Bool
    → Type 0
LoadsAll parse base paths s (t, ok) = Loads parse base s t × (ok ≡ true → All (IsCached t) paths)

module _ {Value : Type 0} (parse : Bytes → Option Value) (base : ℕ) where
  pub Loads-trans :
      (s t u : Configs Value) → Loads parse base s t → Loads parse base t u → Loads parse base s u
  Loads-trans s t u h k = record {
    fresh = k.fresh;
    above = k.above;
    files = k.files ∙ h.files;
    deleted = k.deleted ∙ h.deleted;
    stays = λ q n e. k.stays q n (h.stays q n e);
  }

  -- A cached entry that is inserted at a path leaves what is fresh.
  inserted-Loads :
      (li : Bytes) (p : ℕ) (s : Configs Value)
      → All (IsFresh parse base s) s.jsons
      → base ≤ s.next
      → IsFresh parse base s (li, p)
      → Loads parse base s (inserted li p s)
  inserted-Loads li p s fresh above here_too = record {
    fresh = cache-All (IsFresh parse base s) li p s.jsons here_too fresh;
    above = above;
    files = refl;
    deleted = refl;
    stays = λ q n e. cache-kept li q p n s.jsons e;
  }

  pub lookup-All :
      (P : Bytes × ℕ → Type 0) (q : Bytes) (n : ℕ) (m : List (Bytes × ℕ))
      → lookup q m ≡ some n
      → All P m
      → P (q, n)
  unfolding lookup
  lookup-All P q n [] e h = absurd (none-ne-some n e)
  lookup-All P q n ((r, k) ∷ m) e h = elim (Bool-cases (eq_bytes r q)) [
    | inl g ↦
        let r-q = (eq_bytes_iff r q).0 g in
        let hit : (if eq_bytes r q then some k else lookup q m) ≡ some k = rw g in
        let k-n = some_inj.0 (sym hit ∙ e) in let both : (r, k) ≡ (q, n) = cc in subst P both h.0
    | inr g ↦
        let on : (if eq_bytes r q then some k else lookup q m) ≡ lookup q m = rw g in
        lookup-All P q n m (sym on ∙ e) h.1
  ]

  -- A new configuration holds what its file says, and the others what they held.
  keep_new-IsFresh :
      (li text : Bytes) (value : Value) (s : Configs Value)
      → All (IsFresh parse base s) s.jsons
      → base ≤ s.next
      → s.files li ≡ some text
      → parse text ≡ some value
      → All (IsFresh parse base (keep_new parse li value s)) (keep_new parse li value s).jsons
  unfolding keep_new
  keep_new-IsFresh li text value s fresh above f g =
      let t = keep_new parse li value s in
      cache-All (IsFresh parse base t) li s.next s.jsons
        (inr (text, f, rw (==_refl s.next) g, above, omega arith))
        (All-imp (IsFresh parse base s) (IsFresh parse base t) s.jsons
          (λ (path, p) h. elim h [
            | inl missing ↦ inl missing
            | inr (told, a, b, c, d) ↦
                let other : (p == s.next) ≡ false = ground (arith, d) in
                inr (told, a, rw other b, c, omega (arith, d))
          ])
          fresh)

  new_one :
      (li text : Bytes) (value : Value) (s : Configs Value)
      → All (IsFresh parse base s) s.jsons
      → base ≤ s.next
      → lookup li s.jsons ≡ none
      → s.files li ≡ some text
      → parse text ≡ some value
      → let after = keep_new parse li value s in
        Loads parse base s (inserted li s.next after) × IsCached (inserted li s.next after) li
  unfolding keep_new
  new_one li text value s fresh above e f g =
      let after = keep_new parse li value s in
      let held = keep_new-IsFresh li text value s fresh above f g in
      let first : Loads parse base s after = record {
        fresh = held;
        above = omega arith;
        files = refl;
        deleted = refl;
        stays = λ q n h. cache-kept li q s.next n s.jsons h;
      } in
      let second = inserted-Loads li s.next after held (omega arith) (
        lookup-All (IsFresh parse base after) li s.next after.jsons
          (lookup-cache li s.next s.jsons e) held) in
      (
        Loads-trans s after (inserted li s.next after) first second,
        cache-found li s.next after.jsons,
      )

  load_one :
      (li : Bytes) (s : Configs Value)
      → All (IsFresh parse base s) s.jsons
      → base ≤ s.next
      → LoadsOne parse base li s (from_file parse li s)
  load_one li s fresh above = elim (from_file_cases parse li s) [
    | inl (p, e, f) ↦ rw f (
      inserted-Loads li p s fresh above (lookup-All (IsFresh parse base s) li p s.jsons e fresh),
      cache-found li p s.jsons,
    )
    | inr (e, inl (f, g)) ↦
        rw g (inserted-Loads li 0 s fresh above (inl (f, refl)), cache-found li 0 s.jsons)
    | inr (e, inr (text, f, inl (g, k))) ↦ rw k tt
    | inr (e, inr (text, f, inr (value, g, k))) ↦ rw k (new_one li text value s fresh above e f g)
  ]

  load_rest :
      (li : Bytes) (paths : List Bytes) (s : Configs Value) (o : Loaded Value)
      → LoadsOne parse base li s o
      → All (IsFresh parse base s) s.jsons
      → base ≤ s.next
      → ((t : Configs Value)
          → All (IsFresh parse base t) t.jsons
          → base ≤ t.next
          → LoadsAll parse base paths t (load_all parse paths t))
      → LoadsAll parse base (li ∷ paths) s (elim o [
        | thrown ↦ (s, false)
        | returned after p ↦ load_all parse paths (inserted li p after)
      ])
  load_rest li paths s thrown one fresh above rest = (
    record { fresh = fresh; above = above; files = refl; deleted = refl; stays = λ q n e. e },
    λ h. absurd (never h),
  )
  load_rest li paths s (returned after p) (loads, (n, e)) fresh above rest =
      let next_one = inserted li p after in
      let (more, finds) = rest next_one loads.fresh loads.above in
      (
        Loads-trans s next_one (load_all parse paths next_one).0 loads more,
        λ h. ((n, more.stays li n e), finds h),
      )

  pub load_all-LoadsAll :
      (paths : List Bytes) (s : Configs Value)
      → All (IsFresh parse base s) s.jsons
      → base ≤ s.next
      → LoadsAll parse base paths s (load_all parse paths s)
  unfolding load_all
  load_all-LoadsAll [] s fresh above = (
    record { fresh = fresh; above = above; files = refl; deleted = refl; stays = λ q n e. e },
    λ h. tt,
  )
  load_all-LoadsAll (li ∷ paths) s fresh above =
      load_rest li paths s (from_file parse li s) (load_one li s fresh above) fresh above
        (λ t f a. load_all-LoadsAll paths t f a)
