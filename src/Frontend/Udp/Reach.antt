-- ===== src/Frontend/Udp/Reach.antt =====
-- frontend/udp/frontend.go: every state that the server reaches. Packets arrive at any time, the tasks that
-- they start run at any later time and in any order, and the garbage collector runs between them.
use mochi.Base.{ℕ, ◌≡◌, refl, subst, Option, none, some, List, [], ◌∷◌, ◌++◌, All}
use mochi.Base.Int.{ℤ}
use mochi.Result.{Result, ok, err, panic}
use mochi.Middleware.Safety.{IsSafe, IsSafeLogic}
use mochi.Frontend.Udp.Parser.{Request}
use mochi.Frontend.Udp.Handle.{Server, Moment, Task, Reply, handle_request, run_task}
use mochi.Frontend.Udp.System.{HasHash, TaskHasHash, Served, handle_request-Served, run_task-IsSafe}

-- The storage and the tasks that wait to run; a panic ends the process.
pub data System (S : Type 0) : Type 0 where
  running : S → List Task → System S
  crashed : System S

abbrev pub started : Option Task → List Task → List Task
started none ts = ts
started (some t) ts = t ∷ ts

abbrev pub received : {S : Type 0} → Result Reply × S → List Task → System S
received (ok reply, s) ts = running s (started reply.task ts)
received (err e, s) ts = crashed
received (panic, s) ts = crashed

abbrev pub finished : {S : Type 0} → Result (Unit {0}) × S → List Task → System S
finished (ok u, s) ts = running s ts
finished (err e, s) ts = running s ts
finished (panic, s) ts = crashed

-- `gc` collects the peers that are older than a cutoff.
pub data Step {S : Type 0} (gc : ℤ → S → S) (f : Server S) : System S → System S → Type 0 where
  receive :
      (s : S) (ts : List Task) (r : Request) (m : Moment)
      → Step gc f (running s ts) (received (handle_request f r m s) ts)
  finish :
      (s : S) {ts : List Task} (before : List Task) (t : Task) (behind : List Task) (now : ℕ)
      → ts ≡ before ++ t ∷ behind
      → Step gc f (running s ts) (finished (run_task f now t s) (before ++ behind))
  collect :
      (s : S) (ts : List Task) (cutoff : ℤ) → Step gc f (running s ts) (running (gc cutoff s) ts)

pub data Reach {S : Type 0} (gc : ℤ → S → S) (f : Server S) (u : System S) : System S → Type 0 where
  here : Reach gc f u u
  next : {v w : System S} → Reach gc f u v → Step gc f v w → Reach gc f u w

-- The waiting tasks run, one after the other, and no packet arrives.
pub data Drain {S : Type 0} (f : Server S) (u : System S) : System S → Type 0 where
  drained : Drain f u u
  run :
      {s : S} {t : Task} {ts : List Task} (now : ℕ)
      → Drain f u (running s (t ∷ ts))
      → Drain f u (finished (run_task f now t s) ts)

-- The server runs, its storage keeps the invariant, and every task that waits has its hashes.
abbrev pub IsServing : {S : Type 0} → (S → Type 0) → System S → Type 0
IsServing Good (running s ts) = Good s × All HasHash ts
IsServing Good crashed = ⊥

module _ {S : Type 0} (Good : S → Type 0) (gc : ℤ → S → S) (f : Server S)
    (safe : (now : ℕ) → IsSafeLogic Good (f.logic now))
    (collects : (cutoff : ℤ) (s : S) → Good s → Good (gc cutoff s)) where
  pub started-HasHash :
      (o : Option Task) (ts : List Task)
      → TaskHasHash o
      → All HasHash ts
      → All HasHash (started o ts)
  started-HasHash none ts h k = k
  started-HasHash (some t) ts h k = (h, k)

  received-IsServing :
      (o : Result Reply × S) (ts : List Task)
      → Served Good o
      → All HasHash ts
      → IsServing Good (received o ts)
  received-IsServing (ok reply, s) ts h k = (h.0, started-HasHash reply.task ts h.1 k)
  received-IsServing (err e, s) ts h k = h
  received-IsServing (panic, s) ts h k = h

  finished-IsServing :
      (o : Result (Unit {0}) × S) (ts : List Task)
      → IsSafe Good o
      → All HasHash ts
      → IsServing Good (finished o ts)
  finished-IsServing (ok u, s) ts h k = (h.0, k)
  finished-IsServing (err e, s) ts h k = (h.0, k)
  finished-IsServing (panic, s) ts h k = absurd (h.1 refl)

  without :
      (before : List Task) (t : Task) (behind : List Task)
      → All HasHash (before ++ t ∷ behind)
      → HasHash t × All HasHash (before ++ behind)
  without [] t behind h = h
  without (u ∷ before) t behind h = let (a, b) = without before t behind h.1 in (a, (h.0, b))

  pub Step-IsServing : {u v : System S} → Step gc f u v → IsServing Good u → IsServing Good v
  Step-IsServing (receive s ts r m) h =
      received-IsServing (handle_request f r m s) ts (handle_request-Served Good f safe r m s h.0)
        h.1
  Step-IsServing (finish s before t behind now e) h =
      let (a, b) = without before t behind (subst (All HasHash) e h.1) in
      finished-IsServing (run_task f now t s) (before ++ behind)
        (run_task-IsSafe Good f safe now t s a h.0) b
  Step-IsServing (collect s ts cutoff) h = (collects cutoff s h.0, h.1)

  -- Every state that the server reaches from one where it runs, with no task and an invariant that holds of
  -- the storage, by packets, tasks and collections in any order, is one where it still runs and the
  -- invariant still holds, if the logic is safe for the invariant at all times and the collector keeps it.
  pub Reach-IsServing :
      {s : S} {v : System S} → Good s → Reach gc f (running s []) v → IsServing Good v
  Reach-IsServing g here = (g, tt)
  Reach-IsServing g (next r st) = Step-IsServing st (Reach-IsServing g r)

  finished_running :
      (o : Result (Unit {0}) × S) (ts : List Task)
      → IsSafe Good o
      → (s : S) × Good s × (finished o ts ≡ running s ts)
  finished_running (ok u, s) ts h = (s, h.0, refl)
  finished_running (err e, s) ts h = (s, h.0, refl)
  finished_running (panic, s) ts h = absurd (h.1 refl)

  drain :
      (now : ℕ) (u : System S) (s : S) (ts : List Task)
      → Good s
      → All HasHash ts
      → Drain f u (running s ts)
      → (s' : S) × Good s' × Drain f u (running s' [])
  drain now u s [] g h r = (s, g, r)
  drain now u s (t ∷ ts) g h r =
      let (s', g', e) =
        finished_running (run_task f now t s) ts (run_task-IsSafe Good f safe now t s h.0 g) in
      drain now u s' ts g' h.1 (subst (Drain f u) e (run now r))

  -- If the logic is safe for an invariant of the storage at all times and the collector keeps it, then from
  -- every state that the server reaches from one where the invariant holds and no task waits, the tasks that
  -- wait can run, one after the other and all at the time `now`, with no packet and no collection between
  -- them, to a state where no task waits and the invariant holds.
  pub Reach-drains :
      (now : ℕ) {s : S} {v : System S}
      → Good s
      → Reach gc f (running s []) v
      → (s' : S) × Good s' × Drain f v (running s' [])
  Reach-drains now {v = running s' ts} g r =
      let h = Reach-IsServing g r in drain now (running s' ts) s' ts h.0 h.1 drained
  Reach-drains now {v = crashed} g r = absurd (Reach-IsServing g r)
