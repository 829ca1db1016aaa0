-- ===== src/Export/Release.antt =====
-- metrics.rs: the strings that are given away as pointers, and their release.
use push_cache.Base.{
  ℕ, ◌≡◌, ap, ◌∙◌, ◌≢◌, Option, none, some, List, [], ◌∷◌, Bytes, ◌==◌, ==_iff, if◌then◌else◌,
  is_some, arith,
}

-- The C strings that are given away and not yet released, by their addresses.
abbrev pub Heap : Type 0
Heap = List (ℕ × Bytes)

unfoldable pub string_at : ℕ → Heap → Option Bytes
string_at p [] = none
string_at p ((q, c) ∷ heap) = if q == p then some c else string_at p heap

abbrev pub released : ℕ → Heap → Heap
released p [] = []
released p ((q, c) ∷ heap) = let rest = released p heap in if q == p then rest else (q, c) ∷ rest

-- `CString::into_raw`, with the address that the allocator gives.
abbrev pub into_pointer : (Heap → Bytes → ℕ) → Bytes → Heap → ℕ × Heap
into_pointer allocate c heap = let p = allocate heap c in (p, (p, c) ∷ heap)

-- `prometheus_response_free`. Of a pointer that is not null and was not given away, or was released
-- already, the code says nothing: it is none.
unfoldable pub prometheus_response_free : ℕ → Heap → Option Heap
prometheus_response_free ptr heap =
    if ptr == 0
    then some heap
    else if is_some (string_at ptr heap)
    then some (released ptr heap)
    else none

string_at-released :
    (p : ℕ) (heap : Heap) (q : ℕ)
    → string_at q (released p heap) ≡ (if p == q then none else string_at q heap)
unfolding string_at
string_at-released p [] q = ground arith
string_at-released p ((r, c) ∷ heap) q =
    ground (arith, string_at-released p heap q, ==_iff r p, ==_iff r q, ==_iff p q)

pub free-into_pointer :
    (allocate : Heap → Bytes → ℕ) (c : Bytes) (heap : Heap)
    → allocate heap c ≢ 0
    → string_at (allocate heap c) heap ≡ none
    → let (p, given) = into_pointer allocate c heap in
      (string_at p given ≡ some c)
      × ((after : Heap) × (prometheus_response_free p given ≡ some after)
          × ((q : ℕ) → string_at q after ≡ string_at q heap)
          × (prometheus_response_free p after ≡ none))
unfolding prometheus_response_free string_at
free-into_pointer allocate c heap some_address fresh =
    let p = allocate heap c in
    (
      ground (arith, ==_iff p p),
      (
        released p heap,
        ground (arith, ==_iff p p, ==_iff p 0),
        λ q.
            string_at-released p heap q
            ∙ ground (arith, ==_iff p q, fresh, ap (λ x. string_at x heap) {x = p} {y = q}),
        ground (arith, string_at-released p heap p, ==_iff p p, ==_iff p 0),
      ),
    )
