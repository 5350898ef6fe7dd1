-- ===== src/Generation/Rule.antt =====
-- The byte tries of ngx_cache_purge_invalidation.c: the rule nodes, the search of one trie, and
-- the loop that adds a selector to one.
pub mod Bounds
pub mod Select
use ngx_cache_purge.Prelude.{
  ℕ, Bool, true, false, ◌&&◌, ◌||◌, List, [], ◌∷◌, Option, none, some, ltb, ◌==◌, if◌then◌else◌,
  is_empty,
}
use ngx_cache_purge.Ngx.{Text, Slab}

-- `ngx_http_cache_purge_rule_t *`: the address of a node, its byte and generation, its first child
-- and its next sibling.
pub data Rule : Type 0 where
  null : Rule
  node : ℕ → ℕ → ℕ → Rule → Rule → Rule

-- `while (node != NULL && node->byte != c) node = node->sibling`.
unfoldable pub siblings : ℕ → Rule → Rule
siblings c null = null
siblings c (node a b g child sibling) =
    if b == c then node a b g child sibling else siblings c sibling

module _ (text : Text) where
  -- Prefix selectors are compared without case, exact ones as they are.
  abbrev pub fold : Bool → ℕ → ℕ
  fold true c = text.tolower c
  fold false c = c

  -- One pass of the outer loop of the lookup: the generation so far is raised by each node of the
  -- path that applies to the key.
  unfoldable pub search_rules : Bool → Rule → List ℕ → ℕ → ℕ
  search_rules prefix rule [] generation = generation
  search_rules prefix rule (c ∷ key) generation = elim (siblings (fold prefix c) rule) [
    | null ↦ generation
    | node a b g child sibling ↦
        search_rules prefix child key
          (if (prefix || is_empty key) && ltb generation g then g else generation)
  ]

-- What the loop of an invalidation leaves behind: the new trie, or nothing when an allocation
-- failed, with the chain of allocated nodes, its last node, and the pool.
pub record Placed (S : Type 0) : Type 0 where
  pub rule : Option Rule
  pub allocated : List ℕ
  pub tail : Option ℕ
  pub pool : S

-- The loop writes through `link`: the part below is put back into its node.
abbrev pub relink : {S : Type 0} → Placed S → (Rule → Rule) → Placed S
relink p f = record p { rule = elim p.rule [ none ↦ none | some r ↦ some (f r) ] }

-- `if (state->tail == NULL) state->tail = node`.
abbrev pub first_tail : Option ℕ → ℕ → Option ℕ
first_tail none a = some a
first_tail (some t) a = some t

-- `sizeof(ngx_http_cache_purge_rule_t)` where pointers have 8 bytes.
abbrev pub sizeof_rule : ℕ
sizeof_rule = 40

module _ {S : Type 0} (text : Text) (slab : Slab S) where
  -- The `do` loop: `key` is what is left of the selector, `link` the pointer that it has come to.
  -- Only the last node of the path takes the generation; a new node starts at 0.
  unfoldable pub place : Bool → ℕ → List ℕ → Rule → List ℕ → Option ℕ → S → Placed S
  place prefix v [] link allocated tail pool = record {
    rule = some link;
    allocated = allocated;
    tail = tail;
    pool = pool;
  }
  place prefix v (c ∷ key) null allocated tail pool = elim (slab.calloc sizeof_rule pool) [
    | none ↦ record { rule = none; allocated = allocated; tail = tail; pool = pool }
    | some (a, pool') ↦
        relink (place prefix v key null (a ∷ allocated) (first_tail tail a) pool')
          (λ child. node a (fold text prefix c) (if is_empty key then v else 0) child null)
  ]
  place prefix v (c ∷ key) (node a b g child sibling) allocated tail pool =
      elim (b == fold text prefix c) [
        | true ↦
            relink (place prefix v key child allocated tail pool)
              (λ child'. node a b (if is_empty key then v else g) child' sibling)
        | false ↦
            relink (place prefix v (c ∷ key) sibling allocated tail pool)
              (λ sibling'. node a b g child sibling')
      ]
