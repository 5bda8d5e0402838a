-- ===== src/JsonConfig/Loading.antt =====
-- jsonconfig.cpp, fromFile and save: a configuration is read once.
use drumlin.Prelude.{
  ℕ, ◌≡◌, sym, ap, ◌∙◌, ◌≢◌, ◌⊎◌, inl, inr, Bool, true, Option, none, some, List, if◌then◌else◌,
  ==_refl, Option-cases, Bytes, eq_bytes, eq_bytes_refl, nat_eq, bytes_eq, lt_bytes, lookup,
  lookup-insert,
}
use drumlin.JsonConfig.{
  Configs, thrown, returned, cache, keep_new, load_text, load_file, from_file, save,
}

pub lookup-cache :
    (path : Bytes) (p : ℕ) (jsons : List (Bytes × ℕ))
    → lookup path jsons ≡ none
    → lookup path (cache jsons path p) ≡ some p
lookup-cache path p jsons h =
    lookup-insert lt_bytes path path p jsons h
    ∙ ap (λ b. if b then some p else lookup path jsons) (eq_bytes_refl path)

returned_inj :
    {Value : Type 0} (s t : Configs Value) (p q : ℕ)
    → returned s p ≡ returned t q
    → (s ≡ t) × (p ≡ q)
returned_inj s t p q h = (cc, cc)

thrown_apart : {Value : Type 0} (t : Configs Value) (p : ℕ) → thrown ≢ returned t p
thrown_apart t p h = cc

module _ {Value : Type 0} (parse : Bytes → Option Value) where
  -- What fromFile does: a path that is cached gives its pointer, a missing file the null pointer, which
  -- is not cached; a text that is no JSON throws; and any other is cached at a new address.
  pub from_file_cases :
      (path : Bytes) (s : Configs Value)
      → ((p : ℕ) × (lookup path s.jsons ≡ some p) × (from_file parse path s ≡ returned s p))
        ⊎ ((lookup path s.jsons ≡ none)
            × (((s.files path ≡ none) × (from_file parse path s ≡ returned s 0))
                ⊎ ((text : Bytes) × (s.files path ≡ some text)
                    × (((parse text ≡ none) × (from_file parse path s ≡ thrown))
                        ⊎ ((value : Value) × (parse text ≡ some value)
                            × (from_file parse path s
                                ≡ returned (keep_new parse path value s) s.next))))))
  unfolding from_file load_file load_text
  from_file_cases path s = elim (Option-cases (lookup path s.jsons)) [
    | inr (p, e) ↦ inl (p, e, rw (e, from_file))
    | inl e ↦ elim (Option-cases (s.files path)) [
      | inl f ↦ inr (e, inl (f, rw (e, f, from_file)))
      | inr (text, f) ↦ elim (Option-cases (parse text)) [
        | inl g ↦ inr (e, inr (text, f, inl (g, rw (e, f, g, from_file))))
        | inr (value, g) ↦ inr (e, inr (text, f, inr (value, g, rw (e, f, g, from_file))))
      ]
    ]
  ]

  pub cached_found :
      (path : Bytes) (p : ℕ) (s : Configs Value)
      → lookup path s.jsons ≡ some p
      → from_file parse path s ≡ returned s p
  unfolding from_file
  cached_found path p s e = rw (e, from_file)

  -- Once fromFile has given a configuration, it gives the same one for the path, and changes nothing,
  -- whatever the files hold by then.
  pub from_file_once :
      (path : Bytes) (p : ℕ) (s t : Configs Value) (files : Bytes → Option Bytes)
      → from_file parse path s ≡ returned t p
      → p ≢ 0
      → from_file parse path (record t { files = files }) ≡ returned (record t { files = files }) p
  unfolding keep_new
  from_file_once path p s t files h ne =
      cached_found path p (record t { files = files })
        (elim (from_file_cases path s) [
          | inl (q, e, f) ↦
              let same : returned s q ≡ returned t p = sym f ∙ h in
              let (a, b) = returned_inj s t q p same in
              ap (λ (x : Configs Value). lookup path x.jsons) (sym a) ∙ e ∙ ap (λ n. some n) b
          | inr (e, inl (f, g)) ↦ absurd (ne (sym (returned_inj s t 0 p (sym g ∙ h)).1))
          | inr (e, inr (text, f, inl (g, k))) ↦ absurd (thrown_apart t p (sym k ∙ h))
          | inr (e, inr (text, f, inr (value, g, k))) ↦
              let (a, b) = returned_inj (keep_new parse path value s) t s.next p (sym k ∙ h) in
              ap (λ (x : Configs Value). lookup path x.jsons) (sym a)
              ∙ lookup-cache path s.next s.jsons e
              ∙ ap (λ n. some n) b
        ])

  -- A configuration that is saved to a file that exists, and can be opened, is what fromFile reads from
  -- it, where the text that is printed is read back as the value and the path is not cached.
  pub from_file-save :
      (print : Value → Bytes) (is_open : Bytes → Bool) (path old : Bytes) (value : Value)
      (s : Configs Value)
      → parse (print value) ≡ some value
      → s.files path ≡ some old
      → is_open path ≡ true
      → lookup path s.jsons ≡ none
      → (after : Configs Value) × (from_file parse path (save print is_open path value s)
          ≡ returned after s.next)
        × (after.json_at s.next ≡ value)
        × (lookup path after.jsons ≡ some s.next)
  unfolding save from_file load_file load_text keep_new
  from_file-save print is_open path old value s back exists opens fresh =
      let saved : save print is_open path value s
          ≡ record s { files = λ q. if eq_bytes q path then some (print value) else s.files q } =
        rw (exists, opens, save) in
      let now : Configs Value = record s {
        files = λ q. if eq_bytes q path then some (print value) else s.files q;
      } in
      (
        keep_new parse path value now,
        ap (λ x. from_file parse path x) saved ∙ rw (fresh, eq_bytes_refl path, back, from_file),
        rw (==_refl s.next),
        lookup-cache path s.next s.jsons fresh,
      )
