-- ===== src/Gpu/Budget/Sources.antt =====
-- Where the peak and the reserve of a budget come from.
use praelector.Base.{ℕ, ◌*◌, ◌≤◌, ◌<◌, ◌≡◌, refl, ap, Option, none, some, String, arith}
use praelector.Base.Int.{ℤ, pos_part}
use praelector.Domain.Errors.{Failure, ok, ok-injective}
use praelector.Gpu.Budget.{
  Request, PeakSource, seed_table, seed_peak, given_peak, peak_from, peak, reserve,
}

-- The default reserve is at least 1.5 GiB and at least a fifth of the card.
pub reserve-default :
    (total : ℕ) → (1536 ≤ (reserve total none).0) × (total ≤ 5 * (reserve total none).0)
unfolding reserve
reserve-default total = (omega arith, omega arith)

seed_peak-pos : (b p m : String) (n : ℕ) → seed_peak b p m ≡ some n → 0 < n
unfolding seed_peak seed_table
seed_peak-pos b p m n h = ground arith

given_peak-pos :
    (mib : ℤ) (source : PeakSource) (e : Failure) (p : ℕ × PeakSource)
    → given_peak mib source e ≡ ok p
    → 0 < p.0
unfolding given_peak
given_peak-pos mib source e p h = ground arith

peak_from-pos :
    (q : Request) (o m : Option ℤ) (s : Option ℕ) (p : ℕ × PeakSource)
    → ((n : ℕ) → s ≡ some n → 0 < n)
    → peak_from q o m s ≡ ok p
    → 0 < p.0
unfolding peak_from
peak_from-pos q (some mib) m s p f h = given_peak-pos mib _ _ p h
peak_from-pos q none (some mib) s p f h = given_peak-pos mib _ _ p h
peak_from-pos q none none (some mib) p f h = rw (← ap (λ r. r.0) (ok-injective h)) (f mib refl)
peak_from-pos q none none none p f h = cc

pub peak-pos : (q : Request) (p : ℕ × PeakSource) → peak q ≡ ok p → 0 < p.0
unfolding peak
peak-pos q p h =
    peak_from-pos q q.peak_override_mib q.measured_peak_mib _ p
      (seed_peak-pos q.backend_id q.precision q.model) h

-- The reserve that the request asks for, or by default at least 1.5 GiB and a fifth of the card.
abbrev pub IsReserve : Option ℤ → (total reserve_mib : ℕ) → Type 0
IsReserve (some mib) total reserve_mib = reserve_mib ≡ pos_part mib
IsReserve none total reserve_mib = (1536 ≤ reserve_mib) × (total ≤ 5 * reserve_mib)

pub reserve-IsReserve : (o : Option ℤ) (total : ℕ) → IsReserve o total (reserve total o).0
reserve-IsReserve (some mib) total = unfold reserve in refl
reserve-IsReserve none total = reserve-default total

-- The peak that the request asks for, or the measured one, or the one of the table.
abbrev pub IsPeak : (override measured : Option ℤ) → Option ℕ → ℕ → Type 0
IsPeak (some mib) measured seeded n = n ≡ pos_part mib
IsPeak none (some mib) seeded n = n ≡ pos_part mib
IsPeak none none seeded n = seeded ≡ some n

given_peak-eq :
    (mib : ℤ) (source : PeakSource) (e : Failure) (p : ℕ × PeakSource)
    → given_peak mib source e ≡ ok p
    → p.0 ≡ pos_part mib
unfolding given_peak
given_peak-eq mib source e p h = ground arith

pub peak_from-IsPeak :
    (q : Request) (o m : Option ℤ) (s : Option ℕ) (p : ℕ × PeakSource)
    → peak_from q o m s ≡ ok p
    → IsPeak o m s p.0
unfolding peak_from
peak_from-IsPeak q (some mib) m s p h = given_peak-eq mib _ _ p h
peak_from-IsPeak q none (some mib) s p h = given_peak-eq mib _ _ p h
peak_from-IsPeak q none none (some mib) p h = ap (λ r. some r.0) (ok-injective h)
peak_from-IsPeak q none none none p h = cc

-- The peak of the request's override, measurement, or of the table for its backend.
abbrev pub IsPeakOf : Request → ℕ → Type 0
IsPeakOf q =
    IsPeak q.peak_override_mib q.measured_peak_mib (seed_peak q.backend_id q.precision q.model)
