-- ===== src/Table/Probe.antt =====
-- What the probe loop of `find` finds, and how it meets a write to an empty slot.
use singlestoredb_extension.Base.{
  ℕ, zero, suc, ◌<◌, ◌≡◌, ◌≢◌, true, false, List, some, ok, arith, get_elem?, set, length,
  get_elem?-set_self, get_elem?-set_ne,
}
use singlestoredb_extension.Table.{next_index, find_loop, find}

module _ (entries : List ℕ) (size stride key start : ℕ) where
  -- The slot of a hit holds the key.
  find_loop-hit :
      (fuel i j : ℕ)
      → find_loop entries size stride key start fuel i ≡ ok (j, true)
      → get_elem? entries j ≡ some key
  unfolding find_loop
  find_loop-hit zero i j h = cc
  find_loop-hit (suc fuel) i j h = ground (arith, find_loop-hit fuel (next_index size stride i) j)

  -- The slot of a miss is empty.
  find_loop-miss :
      (fuel i j : ℕ)
      → find_loop entries size stride key start fuel i ≡ ok (j, false)
      → get_elem? entries j ≡ some 0
  unfolding find_loop
  find_loop-miss zero i j h = cc
  find_loop-miss (suc fuel) i j h = ground (arith, find_loop-miss fuel (next_index size stride i) j)

  -- A hit passes no empty slot, so a write to one leaves it as it is.
  find_loop-keeps :
      (slot v fuel i j : ℕ)
      → get_elem? entries slot ≡ some 0
      → find_loop entries size stride key start fuel i ≡ ok (j, true)
      → find_loop (set entries slot v) size stride key start fuel i ≡ ok (j, true)
  unfolding find_loop
  find_loop-keeps slot v zero i j e h = cc
  find_loop-keeps slot v (suc fuel) i j e h = ground (
    arith,
    find_loop-keeps slot v fuel (next_index size stride i) j e,
    get_elem?-set_ne entries slot i v,
  )

  -- After a write to the empty slot of a miss, the same probes end in a hit there.
  find_loop-fills :
      (fuel i j : ℕ)
      → key ≢ 0
      → j < length entries
      → find_loop entries size stride key start fuel i ≡ ok (j, false)
      → find_loop (set entries j key) size stride key start fuel i ≡ ok (j, true)
  unfolding find_loop
  find_loop-fills zero i j ne inside h = cc
  find_loop-fills (suc fuel) i j ne inside h = ground (
    arith,
    find_loop-fills fuel (next_index size stride i) j ne inside,
    find_loop-miss fuel (next_index size stride i) j,
    get_elem?-set_ne entries j i key,
    get_elem?-set_self entries j key inside,
  )

module _ (entries : List ℕ) (lg_size key : ℕ) where
  pub find-hit : (j : ℕ) → find entries lg_size key ≡ ok (j, true) → get_elem? entries j ≡ some key
  unfolding find
  find-hit j h = find_loop-hit entries _ _ key _ _ _ j h

  pub find-miss : (j : ℕ) → find entries lg_size key ≡ ok (j, false) → get_elem? entries j ≡ some 0
  unfolding find
  find-miss j h = find_loop-miss entries _ _ key _ _ _ j h

  pub find-keeps :
      (slot v j : ℕ)
      → get_elem? entries slot ≡ some 0
      → find entries lg_size key ≡ ok (j, true)
      → find (set entries slot v) lg_size key ≡ ok (j, true)
  unfolding find
  find-keeps slot v j e h = find_loop-keeps entries _ _ key _ slot v _ _ j e h

  pub find-fills :
      (j : ℕ)
      → key ≢ 0
      → j < length entries
      → find entries lg_size key ≡ ok (j, false)
      → find (set entries j key) lg_size key ≡ ok (j, true)
  unfolding find
  find-fills j ne inside h = find_loop-fills entries _ _ key _ _ _ j ne inside h
