-- ===== src/Generation/Init/Epochs.antt =====
-- What a restart of nginx leaves of the keys made before it.
use mathlib.Core.List.{Mem, mem-cons_of_mem, mem-cons_self}
use mathlib.Core.Path.{subst}
use ngx_cache_purge.Prelude.{
  ℕ, ◌+◌, ◌-◌, ◌<◌, ◌≡◌, refl, sym, ap, ◌∙◌, inl, inr, Bool, true, false, List, [], ◌∷◌, ◌++◌,
  Option, none, some, length, drop, bytes_eq, eq_of_bytes_eq, length-append, drop-append, drop-add,
  u64, arith, Bool-cases, Option-cases,
}
use ngx_cache_purge.Ngx.{Text, TextLaws, Slab, ok, declined}
use ngx_cache_purge.Generation.Key.{Decoded, all_digits, encode, decode}
use ngx_cache_purge.Generation.Key.RoundTrip.{decode-encode}
use ngx_cache_purge.Generation.State.{Generation, stale, current, is_current}
use ngx_cache_purge.Generation.State.Stale.{Call, run, epoch-run}
use ngx_cache_purge.Generation.Init.{
  NamespaceConf, Zone, Initialized, epoch_of, first_state, begin_state, generation_init,
}

abbrev new_zone : Zone
new_zone = record { exists = false; head = none }

-- What is documented of `ngx_create_temp_file`: a name in the directory, of ten digits, that no file
-- has (`O_EXCL`).
pub record TempLaws (create_temp_file : List ℕ → List (List ℕ) → Option (List ℕ)) : Type 0 where
  pub create_temp_file-digits :
      (path : List ℕ) (files : List (List ℕ)) (name : List ℕ)
      → create_temp_file path files ≡ some name
      → (digits : List ℕ) × (name ≡ path ++ b'/' ∷ digits)
        × (length digits ≡ 10)
        × (all_digits digits ≡ true)
  pub create_temp_file-fresh :
      (path : List ℕ) (files : List (List ℕ)) (name : List ℕ)
      → create_temp_file path files ≡ some name
      → ¬ (Mem name files)

some_inj : {a b : Generation} → some a ≡ some b → a ≡ b
some_inj h = cc

epoch_of-append :
    (path digits : List ℕ) → length digits ≡ 10 → epoch_of (path ++ b'/' ∷ digits) ≡ digits
epoch_of-append path digits h =
    let name = path ++ b'/' ∷ digits in
    let cut : length name - 10 ≡ length path + 1 =
      omega (arith, length-append path (b'/' ∷ digits), h) in
    ap (λ n. drop n name) cut
    ∙ (drop-add (length path) 1 name ∙ ap (drop 1) (drop-append path (b'/' ∷ digits)))

-- An entry of another epoch.
other_epoch :
    (text : Text) (name : List ℕ) (state : Generation) (key : List ℕ) (d : Decoded)
    → decode text name key ≡ some d
    → bytes_eq d.epoch state.epoch ≡ false
    → (stale text name state key ≡ ok) × (current text name state key ≡ declined)
unfolding stale current is_current
other_epoch text name state key d h e = (ground (arith, h, e), ground (arith, h, e))

module _ (create_temp_file : List ℕ → List (List ℕ) → Option (List ℕ)) where
  -- Attempts to start on a new zone, with what they leave in the directory.
  unfoldable pub restarts : List Bool → NamespaceConf → List (List ℕ) → List (List ℕ)
  restarts [] ns files = files
  restarts (room ∷ rooms) ns files =
      restarts rooms ns (generation_init create_temp_file room none new_zone ns files).files

  begin_state_keeps :
      (room : Bool) (zone : Zone) (ns : NamespaceConf) (files : List (List ℕ)) (name : List ℕ)
      → Mem name files
      → Mem name (begin_state create_temp_file room zone ns files).files
  unfolding begin_state
  begin_state_keeps false zone ns files name h = h
  begin_state_keeps true zone ns files name h =
      elim (Option-cases (create_temp_file ns.state_path files)) [
        | inl e ↦ rw e h
        | inr (made, e) ↦ rw e (mem-cons_of_mem made h)
      ]

  restarts_keep :
      (rooms : List Bool) (ns : NamespaceConf) (files : List (List ℕ)) (name : List ℕ)
      → Mem name files
      → Mem name (restarts rooms ns files)
  unfolding restarts generation_init
  restarts_keep [] ns files name h = h
  restarts_keep (room ∷ rooms) ns files name h =
      restarts_keep rooms ns _ name (begin_state_keeps room new_zone ns files name h)

  -- A start that succeeds has made a file, whose name has the epoch.
  begin_state_ok :
      (room : Bool) (zone : Zone) (ns : NamespaceConf) (files : List (List ℕ))
      → (begin_state create_temp_file room zone ns files).rc ≡ ok
      → (name : List ℕ) × (create_temp_file ns.state_path files ≡ some name)
        × ((begin_state create_temp_file room zone ns files).namespace.shared
            ≡ some (first_state ns.state_path name))
        × ((begin_state create_temp_file room zone ns files).files ≡ name ∷ files)
  unfolding begin_state
  begin_state_ok false zone ns files h = absurd (ground (arith, h))
  begin_state_ok true zone ns files h = elim (Option-cases (create_temp_file ns.state_path files)) [
    | inl e ↦ absurd (grind (arith, rw e at h))
    | inr (made, e) ↦ (made, e, rw e refl, rw e refl)
  ]

  -- A start on a new zone.
  abbrev pub start : Bool → NamespaceConf → List (List ℕ) → Initialized
  start room ns files = generation_init create_temp_file room none new_zone ns files

  module _ (laws : TempLaws create_temp_file) where
    open laws use {create_temp_file-digits, create_temp_file-fresh}

    epochs_differ :
        (path : List ℕ) (files files' : List (List ℕ)) (name name' : List ℕ)
        → create_temp_file path files ≡ some name
        → create_temp_file path files' ≡ some name'
        → Mem name files'
        → bytes_eq (epoch_of name) (epoch_of name') ≡ false
    epochs_differ path files files' name name' e e' listed =
        let (d, n, len, digits) = create_temp_file-digits path files name e in
        let (d', n', len', digits') = create_temp_file-digits path files' name' e' in
        elim (Bool-cases (bytes_eq (epoch_of name) (epoch_of name'))) [
          | inr apart ↦ apart
          | inl equal ↦
              let first : epoch_of name ≡ d = ap (λ x. epoch_of x) n ∙ epoch_of-append path d len in
              let second : epoch_of name' ≡ d' =
                ap (λ x. epoch_of x) n' ∙ epoch_of-append path d' len' in
              let same : d ≡ d' =
                sym first ∙ (eq_of_bytes_eq (epoch_of name) (epoch_of name') equal ∙ second) in
              let names : name ≡ name' = n ∙ (ap (λ x. path ++ b'/' ∷ x) same ∙ sym n') in
              absurd (
                create_temp_file-fresh path files' name' e'
                  (subst (λ x. Mem x files') names listed))
        ]

    epoch_digits :
        (path : List ℕ) (files : List (List ℕ)) (name : List ℕ)
        → create_temp_file path files ≡ some name
        → (length (epoch_of name) ≡ 10) × (all_digits (epoch_of name) ≡ true)
    epoch_digits path files name e =
        let (d, n, len, digits) = create_temp_file-digits path files name e in
        let same : epoch_of name ≡ d = ap (λ x. epoch_of x) n ∙ epoch_of-append path d len in
        rw same (len, digits)

    -- The two states, in terms of the files that they made.
    start_twice :
        (ns : NamespaceConf) (room room' : Bool) (rooms : List Bool) (files : List (List ℕ))
        (s t : Generation)
        → (start room ns files).rc ≡ ok
        → (start room ns files).namespace.shared ≡ some s
        → (start room' ns (restarts rooms ns (start room ns files).files)).rc ≡ ok
        → (start room' ns (restarts rooms ns (start room ns files).files)).namespace.shared ≡ some t
        → (length s.epoch ≡ 10) × (all_digits s.epoch ≡ true) × (bytes_eq s.epoch t.epoch ≡ false)
    unfolding generation_init
    start_twice ns room room' rooms files s t h hs h' ht =
        let later = restarts rooms ns (begin_state create_temp_file room new_zone ns files).files in
        let (name, e, shared, made) = begin_state_ok room new_zone ns files h in
        let (name', e', shared', made') = begin_state_ok room' new_zone ns later h' in
        let (len, digits) = epoch_digits ns.state_path files name e in
        let first : first_state ns.state_path name ≡ s = some_inj (sym shared ∙ hs) in
        let second : first_state ns.state_path name' ≡ t = some_inj (sym shared' ∙ ht) in
        let listed : Mem name later =
          restarts_keep rooms ns _ name (subst (λ x. Mem name x) (sym made) mem-cons_self) in
        let apart = epochs_differ ns.state_path files later name name' e e' listed in
        rw (← first, ← second) (len, digits, apart)

    -- After a full restart of nginx with the directory of the state kept, whatever attempts to start
    -- came between, a key that was made before it is stale and not current, and it stays so through
    -- any sequence of invalidations.
    pub generation_init-stale :
        {S : Type 0} (text : Text) (text_laws : TextLaws text) (slab : Slab S) (name : List ℕ)
        (ns : NamespaceConf) (room room' : Bool) (rooms : List Bool) (files : List (List ℕ))
        (s t : Generation) (cs : List Call) (pool : S) (g : ℕ) (logical : List ℕ)
        → (start room ns files).rc ≡ ok
        → (start room ns files).namespace.shared ≡ some s
        → (start room' ns (restarts rooms ns (start room ns files).files)).rc ≡ ok
        → (start room' ns (restarts rooms ns (start room ns files).files)).namespace.shared ≡ some t
        → g < u64
        → (stale text name (run text slab name cs (t, pool)).0 (encode text name s.epoch g logical)
            ≡ ok)
          × (current text name
                (run text slab name cs (t, pool)).0
                (encode text name s.epoch g logical)
              ≡ declined)
    generation_init-stale text text_laws slab name ns room room' rooms files s t cs pool g logical h
          hs h' ht lt =
        let (len, digits, apart) = start_twice ns room room' rooms files s t h hs h' ht in
        let decoded = decode-encode text text_laws name s.epoch g logical len digits lt in
        other_epoch text name (run text slab name cs (t, pool)).0 _ _ decoded
          (rw (epoch-run text slab name cs (t, pool)) apart)
