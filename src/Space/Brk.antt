-- ===== src/Space/Brk.antt =====
-- `sys_brk`.
use spike_os.Prelude.{
  ℕ, ◌-◌, ◌/◌, ◌≤◌, ◌<◌, ◌≡◌, ◌≢◌, false, ◌==◌, if◌then◌else◌, ltb, leb, Option, some, arith, inl,
  inr, Bool-cases, ◌⊎◌,
}
use spike_os.Paging.{Layout, Memory, page_of}
use spike_os.Paging.Entries.{IsDirectory}
use spike_os.Space.{Space, user_stack, user_flags, page_up, map_pages, grow_brk, sys_brk}
use spike_os.Space.Outcome.{Exhausted}
use spike_os.Space.Range.{Private, Ranged, FirstOf, map_pages-Ranged}

-- The pages between the old and the new break.
abbrev pub new_pages : Space → ℕ → ℕ
new_pages s new_brk = (page_up new_brk - page_up s.brk) / 4096

abbrev pub first_page : Space → ℕ
first_page s = page_of (page_up s.brk)

-- The break moves with all pages up to it mapped, or stays, with some of them, where the frames run out.
pub data Moved (l : Layout) (new_brk : ℕ) (s : Space) (m : Memory)
    : Option ℕ × Space × Memory → Type 0 where
  moved :
      (m' : Memory)
      → Ranged l (page_of s.cr3) user_flags (first_page s) (new_pages s new_brk) m m'
      → Moved l new_brk s m (some new_brk, record s { brk = new_brk }, m')
  stays :
      (count : ℕ) (m' : Memory)
      → count < new_pages s new_brk
      → Exhausted m'
      → Ranged l (page_of s.cr3) user_flags (first_page s) count m m'
      → Moved l new_brk s m (some s.brk, s, m')

grow_brk-Moved :
    (l : Layout) (new_brk : ℕ) (s : Space) (m : Memory) (r : ℕ × Memory)
    → FirstOf l (page_of s.cr3) user_flags (first_page s) (new_pages s new_brk) m r
    → Moved l new_brk s m (
        if r.0 == new_pages s new_brk
        then (some new_brk, record s { brk = new_brk }, r.1)
        else (some s.brk, s, r.1))
grow_brk-Moved l new_brk s m (n, m') (le, r, stop) = elim (Bool-cases (n == new_pages s new_brk)) [
  | inl all ↦ let e : n ≡ new_pages s new_brk = ground arith in rw all (moved m' (rw (← e) r))
  | inr part ↦ rw part (stays n m' (ground arith) (stop (ground arith)) r)
]

-- A break that is not below the old one and below the stack, in a page directory with tables of its own
-- and with no table of the kernel for the new pages: `sys_brk` maps the pages up to the break, each to a
-- zeroed frame of its own that was free, leaves all other pages and returns the new break; or all frames
-- but at most one are in use in the end, the break stays and is returned, and only the first of these
-- pages are mapped.
pub sys_brk-Moved :
    (l : Layout) (new_brk : ℕ) (s : Space) (m : Memory)
    → s.cr3 ≢ 0
    → 1 ≤ new_brk
    → s.brk ≤ new_brk
    → new_brk < user_stack
    → IsDirectory l m (page_of s.cr3)
    → Private l m (page_of s.cr3) (first_page s) (new_pages s new_brk)
    → Moved l new_brk s m (sys_brk l new_brk s m)
unfolding sys_brk grow_brk
sys_brk-Moved l new_brk s m user some_brk grows below ok priv =
    let a : (s.cr3 == 0) ≡ false = ground (arith, user) in
    let b : (new_brk == 0) ≡ false = ground arith in
    let c : ltb new_brk s.brk ≡ false = ground arith in
    let d : leb user_stack new_brk ≡ false = ground arith in
    rw (a, b, c, d)
      (grow_brk-Moved l new_brk s m
        (map_pages l s.cr3 user_flags (new_pages s new_brk) (page_up s.brk) m)
        (map_pages-Ranged l s.cr3 user_flags (new_pages s new_brk) (page_up s.brk) m (omega arith)
          ok priv))

-- Breaks below the old one, in the stack or behind it, and 0 return the old break and change nothing.
pub sys_brk_refused :
    (l : Layout) (new_brk : ℕ) (s : Space) (m : Memory)
    → s.cr3 ≢ 0
    → (new_brk < s.brk) ⊎ (user_stack ≤ new_brk)
    → sys_brk l new_brk s m ≡ (some s.brk, s, m)
unfolding sys_brk
sys_brk_refused l new_brk s m user out = ground (arith, user, out)
