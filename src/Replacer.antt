-- ===== src/Replacer.antt =====
-- replacer/lru_replacer.h and replacer/lru_replacer.cpp. `LRUlist_` is a `std::list` and `LRUhash_`
-- maps a frame to an iterator into it. A list node has an identity here, a number that is never
-- used again, and an iterator is that number. The latch serialises the calls.
pub mod Queue
mod Nodes
pub mod Order
pub mod History
mod Tests
use db_smw.Common.{
  ℕ, suc, ◌+◌, ite, List, [], ◌∷◌, ◌++◌, map, Option, none, some, ℕ_discrete, leb, if◌then◌else◌,
  length,
}
use db_smw.Common.Assoc.{find, erase, assign}

pub record LruReplacer : Type 0 where
  -- nodes with their frames, the oldest first
  pub lru_list : List (ℕ × ℕ)
  pub lru_hash : List (ℕ × ℕ)
  pub max_size : ℕ
  pub next_node : ℕ

-- LRUlist_.erase(it)
unfoldable pub erase_node : ℕ → List (ℕ × ℕ) → List (ℕ × ℕ)
erase_node n [] = []
erase_node n (e ∷ l) = ite (ℕ_discrete e.0 n) (erase_node n l) (e ∷ erase_node n l)

unfoldable pub init : ℕ → LruReplacer
init num_pages = record { lru_list = []; lru_hash = []; max_size = num_pages; next_node = 0 }

-- the frame that `victim` stores in `*frame_id`, or `none` where it returns false
unfoldable pub victim_from : List (ℕ × ℕ) → LruReplacer → Option ℕ × LruReplacer
victim_from [] r = (none, r)
victim_from (e ∷ l) r =
    (some e.1, record r { lru_list = l; lru_hash = erase ℕ_discrete e.1 r.lru_hash })

unfoldable pub victim : LruReplacer → Option ℕ × LruReplacer
unfolding victim_from
victim r = victim_from r.lru_list r

unfoldable pub pin : LruReplacer → ℕ → LruReplacer
pin r frame = elim (find ℕ_discrete frame r.lru_hash) [
  | none ↦ r
  | some node ↦ record r {
    lru_list = erase_node node r.lru_list;
    lru_hash = erase ℕ_discrete frame r.lru_hash;
  }
]

unfoldable pub unpin : LruReplacer → ℕ → LruReplacer
unpin r frame = elim (find ℕ_discrete frame r.lru_hash) [
  | some _ ↦ r
  | none ↦ if leb r.max_size (length r.lru_list) then r else record r {
    lru_list = r.lru_list ++ (r.next_node, frame) ∷ [];
    lru_hash = assign ℕ_discrete frame r.next_node r.lru_hash;
    next_node = suc r.next_node;
  }
]

unfoldable pub size : LruReplacer → ℕ
size r = length r.lru_list

-- the frames that may be evicted, in the order of eviction
unfoldable pub frames : LruReplacer → List ℕ
frames r = map (λ e. e.1) r.lru_list
