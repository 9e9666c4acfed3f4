-- ===== src/Client/Startup/Race.antt =====
-- The callback of the API store and the assignment of the client, which run in two goroutines.
use prefab_cloud_go.Prelude.{
  ℕ, zero, suc, ◌<◌, if◌then◌else◌, Outcome, ret, panics, ◌>>=◌, ◌≡◌, refl, ◌↔◌, Bool, true, false,
  List, [], ◌∷◌, ◌++◌, arith,
}

-- What happens to `client` in `NewClient`: `loaded` is `apiSourceFinishedLoading`, `assigned` the assignment
-- `client = Client{…}`.
pub data StartEvent : Type 0 where
  loaded assigned : StartEvent

pub data Channel : Type 0 where
  nil_channel open_channel closed_channel : Channel

-- The fields of `client` that both touch: the channel, and whether the `sync.Once` has run.
pub record Startup : Type 0 where
  pub initialization_complete : Channel
  pub once_done : Bool

abbrev pub zero_client : Startup
zero_client = record { initialization_complete = Channel.nil_channel; once_done = false }

-- `close(channel)`.
close_channel : Channel → Outcome Channel
close_channel Channel.nil_channel = panics
close_channel Channel.open_channel = ret Channel.closed_channel
close_channel Channel.closed_channel = panics

unfoldable pub finished_loading : Startup → Outcome Startup
unfolding close_channel
finished_loading s =
    if s.once_done
    then ret s
    else (close_channel s.initialization_complete >>= λ channel.
        ret (record { initialization_complete = channel; once_done = true }))

-- The assignment replaces the once too.
abbrev pub assigned_client : Startup
assigned_client = record { initialization_complete = Channel.open_channel; once_done = false }

unfoldable pub start : Startup → List StartEvent → Outcome Startup
start s [] = ret s
start s (StartEvent.loaded ∷ events) = finished_loading s >>= λ behind. start behind events
start s (StartEvent.assigned ∷ events) = start assigned_client events

unfoldable pub times_loaded : ℕ → List StartEvent
times_loaded zero = []
times_loaded (suc n) = StartEvent.loaded ∷ times_loaded n

abbrev closed_client : Startup
closed_client = record { initialization_complete = Channel.closed_channel; once_done = true }

start-closed : (n : ℕ) → start closed_client (times_loaded n) ≡ ret closed_client
unfolding start times_loaded finished_loading
start-closed zero = refl
start-closed (suc n) = start-closed n

start-assigned : (n : ℕ) → start assigned_client (times_loaded (suc n)) ≡ ret closed_client
unfolding start times_loaded finished_loading close_channel
start-assigned n = start-closed n

-- Loads that finish `early` times before the client is assigned and `late` times after it: the program
-- panics exactly if one finished before; otherwise, the channel is closed exactly if one finished after.
pub start_iff :
    (early late : ℕ)
    → ((start zero_client (times_loaded early ++ (StartEvent.assigned ∷ times_loaded late))
          ≡ panics)
        ↔ (0 < early))
      × ((start zero_client (times_loaded early ++ (StartEvent.assigned ∷ times_loaded late))
            ≡ ret (record { initialization_complete = Channel.closed_channel; once_done = true }))
          ↔ ((early ≡ 0) × (0 < late)))
unfolding start times_loaded finished_loading close_channel
start_iff zero zero = ground arith
start_iff zero (suc late) = ground (arith, start-assigned late)
start_iff (suc early) late = ground arith
