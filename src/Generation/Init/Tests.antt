-- ===== src/Generation/Init/Tests.antt =====
-- Restarts of a namespace at one directory with room for two markers.
use mathlib.Core.List.{Mem, mem-cons, not-mem-nil}
use mathlib.Core.Logic.Or
use ngx_cache_purge.Prelude.{
  ℕ, ◌≡◌, ◌⊎◌, refl, sym, inl, inr, Bool, true, false, ◌||◌, not, List, [], ◌∷◌, ◌++◌, Option, none,
  some, if◌then◌else◌, arith, length, codes, bytes_eq, bytes_eq_refl, Bool-cases,
}
use ngx_cache_purge.Ngx.{ok, declined}
use ngx_cache_purge.Generation.Key.{all_digits, encode, is_digit}
use ngx_cache_purge.Generation.State.{stale, current}
use ngx_cache_purge.Generation.State.Stale.{run}
use ngx_cache_purge.Generation.Tests.{ascii, ascii_laws, three_nodes, shop, epoch}
use ngx_cache_purge.Generation.Init.{NamespaceConf, first_state, begin_state, generation_init}
use ngx_cache_purge.Generation.Init.Epochs.{TempLaws, restarts, generation_init-stale}

abbrev is_listed : List ℕ → List (List ℕ) → Bool
is_listed name [] = false
is_listed name (file ∷ files) = bytes_eq name file || is_listed name files

not_listed :
    (name : List ℕ) (files : List (List ℕ)) → is_listed name files ≡ false → ¬ (Mem name files)
not_listed name [] h m = not-mem-nil m
not_listed name (file ∷ files) h m = elim (Bool-cases (bytes_eq name file)) [
  | inl e ↦ absurd (grind (arith, rw e at h))
  | inr e ↦
      Or.elim (hlevel) (mem-cons.0 m)
        (λ same.
          let equal : bytes_eq name file ≡ true = rw same (bytes_eq_refl file) in
          absurd (ground (arith, e, equal)))
        (not_listed name files (rw e at h))
]

abbrev later_epoch : List ℕ
later_epoch = codes "0000000043"

-- A directory for two markers.
abbrev two_markers : List ℕ → List (List ℕ) → Option (List ℕ)
two_markers path files =
    let name = path ++ b'/' ∷ epoch in
    let later = path ++ b'/' ∷ later_epoch in
    if not (is_listed name files)
    then some name
    else if not (is_listed later files)
    then some later
    else none

some_inj : {xs ys : List ℕ} → some xs ≡ some ys → xs ≡ ys
some_inj h = cc

two_markers_cases :
    (path : List ℕ) (files : List (List ℕ)) (name : List ℕ)
    → two_markers path files ≡ some name
    → ((name ≡ path ++ b'/' ∷ epoch) ⊎ (name ≡ path ++ b'/' ∷ later_epoch))
      × (is_listed name files ≡ false)
two_markers_cases path files name h = elim (Bool-cases (is_listed (path ++ b'/' ∷ epoch) files)) [
  | inr e ↦
      let same : path ++ b'/' ∷ epoch ≡ name = some_inj (rw e at h) in
      (inl (sym same), rw (← same) e)
  | inl e ↦ elim (Bool-cases (is_listed (path ++ b'/' ∷ later_epoch) files)) [
    | inl f ↦ absurd (grind (arith, rw (e, f) at h))
    | inr f ↦
        let same : path ++ b'/' ∷ later_epoch ≡ name = some_inj (rw (e, f) at h) in
        (inr (sym same), rw (← same) f)
  ]
]

two_markers_digits :
    (path : List ℕ) (files : List (List ℕ)) (name : List ℕ)
    → two_markers path files ≡ some name
    → (digits : List ℕ) × (name ≡ path ++ b'/' ∷ digits)
      × (length digits ≡ 10)
      × (all_digits digits ≡ true)
unfolding all_digits is_digit
two_markers_digits path files name h = elim (two_markers_cases path files name h).0 [
  | inl e ↦ (epoch, e, refl, refl)
  | inr e ↦ (later_epoch, e, refl, refl)
]

abbrev two_markers_laws : TempLaws two_markers
two_markers_laws = record {
  create_temp_file-digits = two_markers_digits;
  create_temp_file-fresh =
      λ path files name h. not_listed name files (two_markers_cases path files name h).1;
}

abbrev shop_namespace : NamespaceConf
shop_namespace = record { state_path = codes "/state"; shared = none }

abbrev marker_of : List ℕ → List ℕ
marker_of digits = codes "/state" ++ b'/' ∷ digits

-- A start, an attempt without memory, and a start.
generation_init-stale_example :
    (stale ascii shop
        (run ascii three_nodes shop [] (first_state (codes "/state") (marker_of later_epoch), 0)).0
        (encode ascii shop epoch 7 (codes "/a"))
      ≡ ok)
    × (current ascii shop
          (run ascii three_nodes shop []
            (first_state (codes "/state") (marker_of later_epoch), 0)).0
          (encode ascii shop epoch 7 (codes "/a"))
        ≡ declined)
unfolding generation_init begin_state restarts bytes_eq
generation_init-stale_example =
    generation_init-stale two_markers two_markers_laws ascii ascii_laws three_nodes shop
      shop_namespace true true (false ∷ []) [] (first_state (codes "/state") (marker_of epoch))
      (first_state (codes "/state") (marker_of later_epoch)) [] 0 7 (codes "/a") refl refl refl refl
      (omega arith)
