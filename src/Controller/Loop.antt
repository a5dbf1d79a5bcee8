-- ===== src/Controller/Loop.antt =====
-- The goroutine of `Start` in pkg/controller/configmap.go and service.go, which is the same in both: it
-- takes messages of its subscription and signals of its own channel, to which it sends after a
-- message. Reconcile, and a goroutine that waits after a sync that failed, send to that channel too,
-- and wait while it is full.
pub mod Last
pub mod Settling
pub mod Stuck
use etcdauto.Prelude.{
  ℕ, suc, ◌<◌, ◌≡◌, ◌≢◌, Bool, true, false, ◌||◌, Option, none, some, if◌then◌else◌,
}

-- `trigger_capacity` is that of `triggerch`.
abbrev pub trigger_capacity : ℕ
trigger_capacity = 10

-- What the goroutine is doing. It is `signalling` between a message and the signal that it sends for
-- it; a send to a channel that is closed is a panic, which ends the process.
pub data Phase : Type 0 where
  selecting signalling syncing stopped panicked : Phase

-- What tells the two goroutines apart. `received` gives what is known after a message and whether it
-- calls for a sync, `reconciled` whether an event does, and `sync` what a sync writes, `none` for an
-- error.
pub record Goroutine : Type 1 where
  pub Data : Type 0
  pub Msg : Type 0
  pub Event : Type 0
  pub Answer : Type 0
  pub Written : Type 0
  pub received : Msg → Data → Data × Bool
  pub reconciled : Event → Data → Option Written → Bool
  pub sync : Answer → Data → Option Written

module _ (G : Goroutine) where
  -- `heard` is the last message, and `owed` counts the other goroutines that will send a signal. What
  -- happened since the last sync began and calls for a sync is `unsynced`; `syncs` counts the syncs
  -- that began.
  pub record Loop : Type 0 where
    pub known : G.Data
    pub heard : Option G.Msg
    pub written : Option G.Written
    pub pending : ℕ
    pub owed : ℕ
    pub closed : Bool
    pub phase : Phase
    pub unsynced : Bool
    pub syncs : ℕ

  abbrev pub starting : G.Data → Loop
  starting d = record {
    known = d;
    heard = none;
    written = none;
    pending = 0;
    owed = 0;
    closed = false;
    phase = selecting;
    unsynced = false;
    syncs = 0;
  }

  unfoldable pub message_taken : G.Msg → Loop → Loop
  message_taken m s =
      let (d, changed) = G.received m s.known in
      record s {
        known = d;
        heard = some m;
        phase = if changed then signalling else selecting;
        unsynced = changed || s.unsynced;
      }

  unfoldable pub signal_sent : Loop → Loop
  signal_sent s = record s { pending = suc s.pending; phase = selecting }

  -- A signal is taken; `rest` signals are left.
  unfoldable pub sync_begun : ℕ → Loop → Loop
  sync_begun rest s = record s {
    pending = rest;
    phase = syncing;
    unsynced = false;
    syncs = suc s.syncs;
  }

  -- After an error a goroutine is started that sends a signal later.
  unfoldable pub sync_answered : Option G.Written → Loop → Loop
  sync_answered none s = record s { owed = suc s.owed; phase = selecting; unsynced = true }
  sync_answered (some w) s = record s { written = some w; phase = selecting }

  unfoldable pub sync_ended : G.Answer → Loop → Loop
  unfolding sync_answered
  sync_ended a s = sync_answered (G.sync a s.known) s

  -- Reconcile
  unfoldable pub event_seen : G.Event → Loop → Loop
  event_seen e s =
      if G.reconciled e s.known s.written
      then record s { owed = suc s.owed; unsynced = true }
      else s

  unfoldable pub signal_delivered : ℕ → Loop → Loop
  signal_delivered rest s = record s { owed = rest; pending = suc s.pending }

  -- The context is done
  unfoldable pub context_done : Loop → Loop
  context_done s = record s { closed = true; phase = stopped }

  unfoldable pub subscription_closed : Loop → Loop
  subscription_closed s = record s { phase = stopped }

  unfoldable pub send_panicked : Loop → Loop
  send_panicked s = record s { phase = panicked }

  pub data Step : Loop → Loop → Type 0 where
    takes_message : (s : Loop) (m : G.Msg) → s.phase ≡ selecting → Step s (message_taken m s)
    sends :
        (s : Loop) → s.phase ≡ signalling → s.pending < trigger_capacity → Step s (signal_sent s)
    begins :
        (s : Loop) (rest : ℕ)
        → s.phase ≡ selecting
        → s.pending ≡ suc rest
        → Step s (sync_begun rest s)
    ends : (s : Loop) (a : G.Answer) → s.phase ≡ syncing → Step s (sync_ended a s)
    reconciles : (s : Loop) (e : G.Event) → s.phase ≢ panicked → Step s (event_seen e s)
    delivers :
        (s : Loop) (rest : ℕ)
        → s.owed ≡ suc rest
        → s.closed ≡ false
        → s.pending < trigger_capacity
        → Step s (signal_delivered rest s)
    finishes : (s : Loop) → s.phase ≡ selecting → Step s (context_done s)
    unsubscribed : (s : Loop) → s.phase ≡ selecting → Step s (subscription_closed s)
    panics : (s : Loop) (rest : ℕ) → s.owed ≡ suc rest → s.closed ≡ true → Step s (send_panicked s)

  pub data Steps : Loop → Loop → Type 0 where
    no_step : (s : Loop) → Steps s s
    step_then : (s t u : Loop) → Step s t → Steps t u → Steps s u

  pub data Reachable (d : G.Data) : Loop → Type 0 where
    started : Reachable d (starting d)
    next : (s t : Loop) → Reachable d s → Step s t → Reachable d t
