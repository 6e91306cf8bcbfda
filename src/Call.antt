-- ===== src/Call.antt =====
-- A call that can fail, panic, and change what it borrows: the borrowed state comes back in each case.
use braids_rs.Base.{Outcome, done, panic}
use braids_rs.Error.{BraidResult, ok, err}

abbrev pub Call : Type 0 → Type 0 → Type 0
Call A S = Outcome (BraidResult A) × S

-- `?` on the result; a panic unwinds.
abbrev pub and_call : {A B S : Type 0} → Call A S → (A → S → Call B S) → Call B S
and_call (done (ok a), s) f = f a s
and_call (done (err e), s) f = (done (err e), s)
and_call (panic, s) f = (panic, s)

-- A result, or a computation that can panic, that borrows nothing.
abbrev pub returning : {A S : Type 0} → BraidResult A → S → Call A S
returning r s = (done r, s)

abbrev pub computing : {A S : Type 0} → Outcome A → S → Call A S
computing (done a) s = (done (ok a), s)
computing panic s = (panic, s)

-- What holds when a call succeeds, and of what it borrowed when it does not.
abbrev pub Settles : {A S : Type 0} → (A → S → Type 0) → (S → Type 0) → Call A S → Type 0
Settles Q E (done (ok a), s) = Q a s
Settles Q E (done (err e), s) = E s
Settles Q E (panic, s) = E s

pub and_call-Settles :
    {A B S : Type 0} (Q : B → S → Type 0) (E : S → Type 0) (c : Call A S) (f : A → S → Call B S)
    → Settles (λ a s. Settles Q E (f a s)) E c
    → Settles Q E (and_call c f)
and_call-Settles Q E (done (ok a), s) f h = h
and_call-Settles Q E (done (err e), s) f h = h
and_call-Settles Q E (panic, s) f h = h
