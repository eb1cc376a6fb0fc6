-- ===== src/Pool/Tests.antt =====
-- The buffer pool on small inputs, over a disk that holds one number for each page.
use db_smw.Common.{
  none, arith, ℕ, ◌+◌, ◌≤◌, ◌≢◌, ◌⊎◌, ◌≡◌, refl, true, Option, some, ℕ_discrete, ite, if_pos,
  if_neg, ◌∙◌, subst,
}
use db_smw.Common.Int.{ℤ, pos, ℤ_discrete}
use db_smw.Common.Assoc.{find, erase, assign}
use db_smw.Storage.Page.{PageId, PageId_discrete}
use db_smw.Storage.Disk.{Device, IsDevice, page_size, read_page, write_page, Outcome, ok, throw}
use db_smw.Storage.Stored.{page_in_range}
use db_smw.Pool.{
  frame_of, Pool, init, all_frames, find_victim_page, take_free, fetch_present, install, forget,
  unpin_page, unpin_frame,
}
use db_smw.Replacer
use db_smw.Pool.Transfer.{
  flush_page, new_page, fetch_page, fetch_missing, read_frame, update_page, write_frame,
}
use db_smw.Pool.Invariant.{IsGood}
use db_smw.Pool.Start.{init-IsGood}
use db_smw.Pool.Load.{Fetched}
use db_smw.Pool.Create.{next_page, Created, new_page-Created}
use db_smw.Pool.Flush.{Flushed, flush_page-Flushed}
use db_smw.Pool.Unpin.{Unpinned, unpin_page-Unpinned}
use db_smw.Pool.Fetch.{fetch_page-Fetched}

abbrev Numbers : Type 0
Numbers = ℤ → ℤ → Option ℕ

abbrev numbers : Device Numbers ℕ
numbers = record {
  write = λ d fd at b.
      (true, λ gd bt. ite (ℤ_discrete fd gd) (ite (ℤ_discrete at bt) (some b) (d gd bt)) (d gd bt));
  read = λ d fd at. d fd at;
  short_read = λ d fd at b. b;
}

numbers-IsDevice : IsDevice numbers
numbers-IsDevice = record {
  read-write_self = λ d fd at b h.
      if_pos (ℤ_discrete fd fd) refl _ _ ∙ if_pos (ℤ_discrete (pos at) (pos at)) refl _ _;
  read-write_apart = λ d fd gd at bt b c apart h. elim (ℤ_discrete fd gd) [
    | no other ↦ if_neg (ℤ_discrete fd gd) other _ _ ∙ h
    | yes same ↦
        if_pos (ℤ_discrete fd gd) same _ _
        ∙ if_neg (ℤ_discrete (pos at) (pos bt)) (far fd gd at bt apart same) _ _
        ∙ h
  ];
}
  where
    far :
        (fd gd : ℤ) (at bt : ℕ)
        → (fd ≢ gd) ⊎ (at + page_size ≤ bt) ⊎ (bt + page_size ≤ at)
        → fd ≡ gd
        → pos at ≢ pos bt
    far fd gd at bt apart same e = ground (arith, apart, same, e)

abbrev page : ℕ → PageId
page n = record { fd = pos 3; page_no = pos n }

abbrev start : Pool Numbers ℕ
unfolding init
start = init 0 2 (record { disk = λ fd at. some 5; fd2pageno = λ fd. pos 1 }) (λ f. pos 9)

init-IsGood_example : IsGood numbers start
unfolding init
init-IsGood_example =
    init-IsGood numbers 0 2 (record { disk = λ fd at. some 5; fd2pageno = λ fd. pos 1 })
      (λ f. pos 9)

start-IsGood : IsGood numbers start
unfolding init
start-IsGood =
    init-IsGood numbers 0 2 (record { disk = λ fd at. some 5; fd2pageno = λ fd. pos 1 })
      (λ f. pos 9)

start_out : frame_of start (next_page 3 start) ≡ none
unfolding init find
start_out = refl

fetch_page-Fetched_example : Fetched numbers (page 1) start (fetch_page numbers (page 1) start)
unfolding init page_in_range
fetch_page-Fetched_example =
    fetch_page-Fetched numbers numbers-IsDevice start (page 1) start-IsGood refl

program : Unit {0}
unfolding init fetch_page fetch_missing find_victim_page take_free fetch_present install forget
    read_frame read_page update_page write_frame write_page find erase assign all_frames
    Replacer.init Replacer.pin Replacer.unpin Replacer.frames unpin_page unpin_frame ℕ_discrete
    ℤ_discrete PageId_discrete
program = tt

abbrev pool_of : Outcome (Pool Numbers ℕ) (Option ℕ × Pool Numbers ℕ) → Pool Numbers ℕ
pool_of (ok (f, p)) = p
pool_of (throw e p) = p

abbrev fetched : Pool Numbers ℕ
fetched = pool_of (fetch_page numbers (page 1) start)

fetched_result : fetch_page numbers (page 1) start ≡ ok (some 0, fetched)
unfolding program
fetched_result = refl

fetched-IsGood : IsGood numbers fetched
unfolding page_in_range
fetched-IsGood =
    (subst (Fetched numbers (page 1) start) fetched_result
      (fetch_page-Fetched numbers numbers-IsDevice start (page 1) start-IsGood refl)).0

unpin_page-Unpinned_example :
    Unpinned numbers (page 1) true fetched (unpin_page (page 1) true fetched)
unpin_page-Unpinned_example =
    unpin_page-Unpinned numbers fetched (page 1) true fetched-IsGood (λ f here e. cc)

new_page-Created_example : Created numbers 0 3 start (new_page numbers 0 (pos 3) start)
unfolding init page_in_range
new_page-Created_example =
    new_page-Created numbers numbers-IsDevice 0 3 (omega arith) start start-IsGood start_out refl

flush_page-Flushed_example : Flushed numbers (page 1) fetched (flush_page numbers (page 1) fetched)
flush_page-Flushed_example =
    flush_page-Flushed numbers numbers-IsDevice fetched (page 1) fetched-IsGood
