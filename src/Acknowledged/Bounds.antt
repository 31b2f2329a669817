-- ===== src/Acknowledged/Bounds.antt =====
-- How often a request is sent at most, and how long its responses are waited for.
use sicapwap.Prelude.{ℕ, ◌≤◌, ◌≡◌, Bool, List, All, length}
use sicapwap.Exec.{Outcome}
use sicapwap.Message.{Message}
use sicapwap.Acknowledged.Copies.{Begins}
use sicapwap.Acknowledged.Answered.{copies}
use sicapwap.Acknowledged.{Answer, Log, Saved}

-- So many transmissions and waits at most, each wait of so many seconds at most.
pub record AreBounded {ℓ} {V : Type ℓ} (messages : List Message) (max most : ℕ)
    (run : Answer V × Log) : Type 0 where
  pub few_sent : Begins run.1.sent max messages
  pub few_waits : length run.1.waits ≤ max
  pub short_waits : All (λ t. t ≤ most) run.1.waits

module _ {ℓ} {V : Type ℓ} (send : Message → Bool) (parse : Message → Outcome (V × ℕ))
    (save : V → Saved) (messages : List Message) (max longest : ℕ) where
  -- After so many transmissions, with as many waits.
  pub record IsLogged (most count : ℕ) (log : Log) : Type 0 where
    pub sent_so_far : log.sent ≡ copies count messages
    pub waited : length log.waits ≡ count
    pub in_bounds : All (λ t. t ≤ most) log.waits
