-- ===== src/Reports.antt =====
-- The two command line reports: main.go lists pods, pkg/main.go lists Ats. Standard output is the list
-- of the texts printed; what the commands call of the clients' libraries is an interface.
pub mod Pods
pub mod Ats
pub mod Totals
pub mod Listing
pub mod AtListing
mod Examples
use kubernetes_programming.Prelude.{
  Bytes, ℕ, zero, suc, ◌+◌, ◌/◌, ◌%◌, List, [], ◌∷◌, ◌++◌, ltb, if◌then◌else◌,
}

-- The digits of a number, fuel being at least their count.
digits : ℕ → ℕ → Bytes
digits zero n = []
digits (suc fuel) n =
    let rest = digits fuel (n / 10) in
    if ltb n 10 then (b'0' + n) ∷ [] else rest ++ (b'0' + n % 10) ∷ []

-- %d of a number that is not negative.
unfoldable pub decimal : ℕ → Bytes
unfolding digits
decimal n = digits (suc n) n

-- What a run of a command prints, and its exit status.
pub record Run : Type 0 where
  pub output : List Bytes
  pub exit : ℕ

-- log.Fatalf, after what has been printed.
abbrev pub fatal : List Bytes → Run
fatal output = record { output = output; exit = 1 }

-- The flags of both commands. On a command line that it accepts, flag.Parse is a function from their
-- defaults to their values.
pub record ListFlags : Type 0 where
  pub kubeconfig : Bytes
  pub namespace : Bytes
