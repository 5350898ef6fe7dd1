-- ===== src/Refresh/Complete.antt =====
-- What a scan leaves out is behind everything that it keeps.
use mathlib.Core.Path.{subst}
use ngx_cache_purge.Prelude.{
  ℕ, ◌≤◌, ◌≡◌, ◌≢◌, ◌⊎◌, inl, inr, refl, sym, ◌∙◌, ap, true, false, not, List, [], ◌∷◌, ◌==◌,
  length, Bool-cases, arith,
}
use ngx_cache_purge.Queue.Counts.{All}
use ngx_cache_purge.Walk.Tree.{memcmp}
use ngx_cache_purge.Refresh.Batch.{
  RefreshEntry, Batch, batch_size, is_less, is_same, has_hash, largest_from, replace_hash,
  append_entry, add_to, add_found, add_entry, add_entries,
}
use ngx_cache_purge.Refresh.Smallest.{
  AtMost, AtMost-refl, AtMost-trans, AtMost-total, Sized, Under, Under-trans, largest_from-Under,
  largest_from-has_hash, largest_old, eq_of_same, same_refl, replace_hash-Sized, replace_hash-Under,
  length-replace_hash, replace_hash-new, replace_hash-kept, append_entry-Sized, length-append_entry,
  append_entry-new, append_entry-kept,
}

-- A batch has at most 32 entries, whose hashes have 32 bytes, and it is full if it left any out.
pub record IsBatch (b : Batch) : Type 0 where
  pub sized : Sized b.entries
  pub size_le : length b.entries ≤ batch_size
  pub more_full : b.more ≡ true → length b.entries ≡ batch_size

-- A hash is in the batch, or the batch says that it left some out and has none above the hash.
abbrev pub Settled : List ℕ → Batch → Type 0
Settled h b = (has_hash h b.entries ≡ true) ⊎ ((b.more ≡ true) × Under h b.entries)

-- What one offer does.
abbrev Offered : RefreshEntry → Batch → Batch → Type 0
Offered e b b' =
    IsBatch b' × Settled e.hash b' × ((h : List ℕ) → length h ≡ 32 → Settled h b → Settled h b')

empty_hit : (h : List ℕ) → has_hash h [] ≢ true
unfolding has_hash
empty_hit h e = grind (arith, e)

AtMost-of_hit :
    (a h : List ℕ) (es : List RefreshEntry)
    → length a ≡ 32
    → Sized es
    → has_hash a es ≡ true
    → Under h es
    → AtMost a h
unfolding has_hash
AtMost-of_hit a h [] la s hit u = absurd (grind (arith, hit))
AtMost-of_hit a h (x ∷ es) la (lx, s) hit (ux, u) = elim (Bool-cases (is_same (memcmp a x.hash))) [
  | inl m ↦ rw (eq_of_same a x.hash (la ∙ sym lx) m) ux
  | inr m ↦ AtMost-of_hit a h es la s (ground (arith, m, hit)) u
]

-- The four outcomes for a hash that is new.
module _ (e : RefreshEntry) (b : Batch) (le : length e.hash ≡ 32) (good : IsBatch b) where
  Offered-first : b.entries ≡ [] → Offered e b (record b { entries = e ∷ [] })
  unfolding has_hash
  Offered-first nil =
      let idle : b.more ≡ true → ⊥ =
        λ m. absurd (omega (arith, sym (good.more_full m) ∙ ap (λ x. length x) nil)) in
      (
        record { sized = (le, tt); size_le = omega arith; more_full = λ m. absurd (idle m) },
        inl (ground (arith, same_refl e.hash)),
        λ h lh s. elim s [
          | inl hit ↦ absurd (empty_hit h (subst (λ x. has_hash h x ≡ true) nil hit))
          | inr (m, u) ↦ absurd (idle m)
        ],
      )

  Offered-append :
      not (length b.entries == batch_size) ≡ true
      → Offered e b (record b { entries = append_entry e b.entries })
  Offered-append room =
      let short : length b.entries ≢ batch_size = ground (arith, room) in
      (
        record {
          sized = append_entry-Sized e b.entries le good.sized;
          size_le = omega (arith, good.size_le, short, length-append_entry e b.entries);
          more_full = λ m. absurd (short (good.more_full m));
        },
        inl (append_entry-new e b.entries),
        λ h lh s. elim s [
          | inl hit ↦ inl (append_entry-kept e h b.entries hit)
          | inr (m, u) ↦ absurd (short (good.more_full m))
        ],
      )

  Offered-drop :
      (t : RefreshEntry)
      → Under t.hash b.entries
      → length t.hash ≡ 32
      → length b.entries ≡ batch_size
      → is_less (memcmp e.hash t.hash) ≡ false
      → Offered e b (record b { more = true })
  Offered-drop t under lt full above = (
    record { sized = good.sized; size_le = good.size_le; more_full = λ m. full },
    inr (
      refl,
      Under-trans t.hash e.hash b.entries lt le good.sized under
          (AtMost-total e.hash t.hash (le ∙ sym lt) above),
    ),
    λ h lh s. elim s [ inl hit ↦ inl hit | inr (m, u) ↦ inr (refl, u) ],
  )

  Offered-replace :
      (t : RefreshEntry)
      → Under t.hash b.entries
      → length t.hash ≡ 32
      → has_hash t.hash b.entries ≡ true
      → length b.entries ≡ batch_size
      → is_less (memcmp e.hash t.hash) ≡ true
      → Offered e b (record b { more = true; entries = replace_hash t.hash e b.entries })
  Offered-replace t under lt there full below =
      let size = length-replace_hash t.hash e b.entries in
      let e_t : AtMost e.hash t.hash = ground (arith, below) in
      (
        record {
          sized = replace_hash-Sized t.hash e b.entries le good.sized;
          size_le = omega (arith, size, full);
          more_full = λ m. size ∙ full;
        },
        inl (replace_hash-new t.hash e b.entries lt good.sized there),
        λ h lh s. elim s [
          | inr (m, u) ↦
              let t_h = AtMost-of_hit t.hash h b.entries lt good.sized there u in
              inr (
                refl,
                replace_hash-Under t.hash e h b.entries
                    (AtMost-trans e.hash t.hash h (le ∙ sym lt) (lt ∙ sym lh) e_t t_h) u,
              )
          | inl hit ↦ elim (Bool-cases (is_same (memcmp h t.hash))) [
            | inr ne ↦ inl (replace_hash-kept t.hash e h b.entries lh good.sized ne hit)
            | inl q ↦
                let eq = eq_of_same h t.hash (lh ∙ sym lt) q in
                inr (refl, rw eq (replace_hash-Under t.hash e t.hash b.entries e_t under))
          ]
        ],
      )

-- The search begins with the first entry, which it meets once more.
largest_found :
    (x : RefreshEntry) (found : List RefreshEntry)
    → has_hash (largest_from x (x ∷ found)).hash (x ∷ found) ≡ true
largest_found x found =
    rw (largest_old x x found (AtMost-refl x.hash)) (largest_from-has_hash x found)

module _ (e : RefreshEntry) (b : Batch) (le : length e.hash ≡ 32) (good : IsBatch b) where
  add_to-Offered :
      (t : RefreshEntry)
      → Under t.hash b.entries
      → length t.hash ≡ 32
      → has_hash t.hash b.entries ≡ true
      → Offered e b (add_to t e b)
  unfolding add_to
  add_to-Offered t under lt there = elim (Bool-cases (has_hash e.hash b.entries)) [
    | inl dup ↦
        let step : b ≡ add_to t e b = simp dup in
        subst (Offered e b) step (good, inl dup, λ h lh s. s)
    | inr new ↦ elim (Bool-cases (not (length b.entries == batch_size))) [
      | inl room ↦
          let step : record b { entries = append_entry e b.entries } ≡ add_to t e b =
            simp (new, room) in
          subst (Offered e b) step (Offered-append e b le good room)
      | inr fits ↦
          let full : length b.entries ≡ batch_size = ground (arith, fits) in
          elim (Bool-cases (is_less (memcmp e.hash t.hash))) [
            | inr above ↦
                let step : record b { more = true } ≡ add_to t e b = simp (new, fits, above) in
                subst (Offered e b) step (Offered-drop e b le good t under lt full above)
            | inl below ↦
                let step : record b { more = true; entries = replace_hash t.hash e b.entries }
                    ≡ add_to t e b =
                  simp (new, fits, below) in
                subst (Offered e b) step (Offered-replace e b le good t under lt there full below)
          ]
    ]
  ]

  add_found-Offered :
      (found : List RefreshEntry) → b.entries ≡ found → Offered e b (add_found e b found)
  unfolding add_found
  add_found-Offered [] nil = Offered-first e b le good nil
  add_found-Offered (x ∷ found) cons =
      let sized : Sized (x ∷ found) = subst Sized cons good.sized in
      let (size, top, under) = largest_from-Under x (x ∷ found) sized.0 sized in
      let t = largest_from x (x ∷ found) in
      add_to-Offered t (subst (Under t.hash) (sym cons) under) size
        (subst (λ es. has_hash t.hash es ≡ true) (sym cons) (largest_found x found))

  add_entry-Offered : Offered e b (add_entry e b)
  unfolding add_entry
  add_entry-Offered = add_found-Offered b.entries refl

add_entries-Settled :
    (es : List RefreshEntry) (b : Batch)
    → Sized es
    → IsBatch b
    → IsBatch (add_entries es b)
      × All (λ e. Settled e.hash (add_entries es b)) es
      × ((h : List ℕ) → length h ≡ 32 → Settled h b → Settled h (add_entries es b))
unfolding add_entries
add_entries-Settled [] b s good = (good, tt, λ h lh k. k)
add_entries-Settled (e ∷ es) b (le, s) good =
    let (good', new, old) = add_entry-Offered e b le good in
    let (last, all, keeps) = add_entries-Settled es (add_entry e b) s good' in
    (last, (keeps e.hash le new, all), λ h lh k. keeps h lh (old h lh k))

-- After a scan that began with an empty batch has been offered any entries, in any order and with
-- repetitions, the batch has at most 32 entries, and every offered hash is in it, or else the batch
-- says that it left some out and has no hash above that one.
pub add_entries_complete :
    (es : List RefreshEntry) (b : Batch)
    → Sized es
    → b.entries ≡ []
    → b.more ≡ false
    → (length (add_entries es b).entries ≤ batch_size)
      × All (λ e. Settled e.hash (add_entries es b)) es
add_entries_complete es b s nil none_left =
    let good : IsBatch b = record {
      sized = subst Sized (sym nil) tt;
      size_le = omega (arith, ap (λ x. length x) nil);
      more_full = λ m. absurd (grind (arith, m, none_left));
    } in
    let (last, all, keeps) = add_entries-Settled es b s good in (last.size_le, all)
