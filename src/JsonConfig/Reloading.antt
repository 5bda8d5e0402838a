-- ===== src/JsonConfig/Reloading.antt =====
-- jsonconfig.cpp, reload: what is cached afterwards.
use drumlin.Prelude.{
  ℕ, [], map, append-nil, append_assoc, Bool-cases, ◌==◌, ◌≡◌, sym, ap, ◌∙◌, inl, inr, Bool, true,
  not, Option, none, some, List, ◌∷◌, ◌++◌, arith, if_cases, keep, All, All-middle, All-imp, Bytes,
  nat_eq, bytes_eq,
}
use drumlin.JsonConfig.{
  Configs, returned, from_file, load_all, drop_all, reload, delete_configs, visible_paths, is_in,
}
use mathlib.Core.Option.{none-ne-some}
use drumlin.JsonConfig.Loading.{cached_found}
use drumlin.JsonConfig.Entries.{never, IsFresh, IsCached}
use drumlin.JsonConfig.Caching.{LoadsAll, Loads-trans, lookup-All, load_all-LoadsAll}

-- The paths that reload looks at first: of files that exist, were cached, and are not in the list.
abbrev pub kept_paths : {Value : Type 0} → List Bytes → Configs Value → List Bytes
kept_paths list s = keep (λ li. not (is_in li list)) (visible_paths s.files s.jsons)

delete_configs_lem :
    (jsons : List (Bytes × ℕ)) (deleted : List ℕ)
    → delete_configs jsons deleted
      ≡ deleted ++ keep (λ p. not (p == 0)) (map (λ (e : Bytes × ℕ). e.1) jsons)
unfolding delete_configs
delete_configs_lem [] deleted = sym (append-nil deleted)
delete_configs_lem ((path, p) ∷ jsons) deleted = elim (Bool-cases (p == 0)) [
  | inl e ↦ rw e (delete_configs_lem jsons deleted)
  | inr e ↦ rw e (
      delete_configs_lem jsons (deleted ++ p ∷ [])
      ∙ append_assoc deleted (p ∷ [])
          (keep (λ q. not (q == 0)) (map (λ (d : Bytes × ℕ). d.1) jsons)))
]

module _ {Value : Type 0} (parse : Bytes → Option Value) where
  reload-LoadsAll :
      (list : List Bytes) (s : Configs Value)
      → LoadsAll parse s.next list (drop_all parse s) (reload parse list s)
        × ((reload parse list s).1 ≡ true
            → All (IsCached (reload parse list s).0) (kept_paths list s))
  unfolding reload drop_all
  reload-LoadsAll list s =
      let start = drop_all parse s in
      let (kept, loaded) = load_all parse (kept_paths list s) start in
      let (first, finds) =
        load_all-LoadsAll parse s.next (kept_paths list s) start tt (omega arith) in
      let (second, rest) = load_all-LoadsAll parse s.next list kept first.fresh first.above in
      let P : Configs Value × Bool → Type 0 = λ (r : Configs Value × Bool).
        LoadsAll parse s.next list start r
        × (r.1 ≡ true → All (IsCached r.0) (kept_paths list s)) in
      if_cases P loaded
        (λ e. (
          (Loads-trans parse s.next start kept (load_all parse list kept).0 first second, rest),
          λ h.
              All-imp (IsCached kept) (IsCached (load_all parse list kept).0) (kept_paths list s)
                (λ q (n, f). (n, second.stays q n f)) (finds e),
        ))
        (λ e. ((first, λ h. absurd (never h)), λ h. absurd (never h)))

  -- After reload, whether or not it throws on its way: a cached path has the null pointer, and then
  -- its file is missing, or a configuration that was made by this reload and holds what its file says;
  -- and what was deleted besides is each pointer of the cache that is not null, in the cache's order.
  pub reload-IsFresh :
      (list : List Bytes) (s : Configs Value)
      → let after = (reload parse list s).0 in
        All (IsFresh parse s.next after) after.jsons
        × (after.deleted
            ≡ s.deleted ++ keep (λ p. not (p == 0)) (map (λ (e : Bytes × ℕ). e.1) s.jsons))
        × (after.files ≡ s.files)
  unfolding drop_all
  reload-IsFresh list s =
      let ((loads, _), _) = reload-LoadsAll list s in
      (loads.fresh, loads.deleted ∙ delete_configs_lem s.jsons s.deleted, loads.files)

  -- After a reload that does not throw, each path of the list is cached, and each that was cached before
  -- and whose file exists.
  reload_finds :
      (list : List Bytes) (s : Configs Value)
      → (reload parse list s).1 ≡ true
      → All (IsCached (reload parse list s).0) list
        × All (IsCached (reload parse list s).0) (kept_paths list s)
  reload_finds list s h = let ((_, finds), kept) = reload-LoadsAll list s in (finds h, kept h)

  -- A missing file in the list of a reload that does not throw: from then on fromFile gives the null
  -- pointer for it, whatever the files hold by then.
  missing_stays :
      (before_it behind : List Bytes) (li : Bytes) (s : Configs Value)
      (files : Bytes → Option Bytes)
      → (reload parse (before_it ++ li ∷ behind) s).1 ≡ true
      → s.files li ≡ none
      → let later = record (reload parse (before_it ++ li ∷ behind) s).0 { files = files } in
        from_file parse li later ≡ returned later 0
  missing_stays before_it behind li s files h missing =
      let list = before_it ++ li ∷ behind in
      let after = (reload parse list s).0 in
      let (fresh, _, same) = reload-IsFresh list s in
      let (p, found) = All-middle (IsCached after) before_it li behind (reload_finds list s h).0 in
      let null : p ≡ 0 =
        elim (lookup-All parse s.next (IsFresh parse s.next after) li p after.jsons found fresh) [
          | inl (_, z) ↦ z
          | inr (text, f, _, _, _) ↦ absurd (
              none-ne-some text
                (sym missing ∙ ap (λ (g : Bytes → Option Bytes). g li) (sym same) ∙ f))
        ] in
      cached_found parse li 0 (record after { files = files }) (found ∙ ap (λ n. some n) null)
