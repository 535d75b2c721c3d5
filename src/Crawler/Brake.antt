-- ===== src/Crawler/Brake.antt =====
-- The brake goes on at one count of overdue tasks and off at a lower one.
use lol_crawler.Prelude.{
  ℕ, ◌-◌, ◌≡◌, ap, inl, inr, Bool, true, false, Bool-cases, ◌&&◌, ◌||◌, leb, ltb, arith,
}
use lol_crawler.Prelude.Maps.{String}
use lol_crawler.Frontier.{bucket_priority, count_in, counted_to, frontier_overdue_count}
use lol_crawler.Crawler.{
  brake_on_count, brake_off_count, brake_overdue_grace_ms, brake_after, Region, update_brake,
}

counted_to-brake :
    (braked : Bool) (n : ℕ)
    → brake_after braked (counted_to n 1000)
      ≡ (leb brake_on_count n || (braked && ltb brake_off_count n))
counted_to-brake true n = elim (Bool-cases (leb n 1000)) [
  | inl t ↦ ground (arith, t)
  | inr f ↦ ground (arith, f)
]
counted_to-brake false n = elim (Bool-cases (leb n 1000)) [
  | inl t ↦ ground (arith, t)
  | inr f ↦ ground (arith, f)
]

-- Though the overdue tasks are counted up to a cap only, the brake is on afterwards exactly where
-- all of the platform's priority tasks that are overdue by two hours or more (by exactly two hours
-- included) are 500 or more, or where it was on and they are more than 100; nothing else changes.
pub update_brake-hysteresis :
    (platform : String) (now_ms : ℕ) (r : Region)
    → update_brake platform now_ms r ≡ record r {
      braked =
          leb 500 (count_in platform bucket_priority (now_ms - 7200000) r.frontier.f)
          || (r.braked
              && ltb 100 (count_in platform bucket_priority (now_ms - 7200000) r.frontier.f));
    }
unfolding update_brake frontier_overdue_count
update_brake-hysteresis platform now_ms r =
    ap (λ (b : Bool). record r { braked = b })
      (counted_to-brake r.braked
        (count_in platform bucket_priority (now_ms - brake_overdue_grace_ms) r.frontier.f))
