-- ===== src/Netlib/Instance.antt =====
-- The static instance of a link type in util/netlib.h: net_GetInstance, the thread of net_Run, and
-- the destructor.
use libuvwrapper.Base.{
  ℕ, zero, suc, ◌≡◌, ◌↔◌, ◌⊎◌, inl, inr, refl, sym, ap, arith, ◌∙◌, Bool, true, false, Option, none,
  some, none-ne-some, ◌==◌, if◌then◌else◌, Outcome, ok, fault, abort, ◌>>=◌, deref,
}
use libuvwrapper.Memory.{Allocator}
use libuvwrapper.SafeBuffer.{SafeBuffer}
use libuvwrapper.Requests.{Status, success}
use libuvwrapper.Netlib.{Net, NetCall, log, new, run_loop, stop_timer, user_timer}
use libuvwrapper.Netlib.Connection.{net_stop, net_stop_timer}

-- m_pNetlibInst, the objects by address, whether their m_pshutdown is set, and whether m_puvWright
-- is.
pub record Instances : Type 0 where
  pub instance_at : Option ℕ
  pub nets : ℕ → Net
  pub shutdown : ℕ → Bool
  pub wright : Bool

abbrev pub put_net : (ℕ → Net) → ℕ → Net → ℕ → Net
put_net nets p n x = if p == x then n else nets x

abbrev pub put_shutdown : (ℕ → Bool) → ℕ → Bool → ℕ → Bool
put_shutdown f p b x = if p == x then b else f x

-- What is made of a new object.
unfoldable pub keep_instance : ℕ → Instances → Net → ℕ × Instances
keep_instance fresh s n = (
  fresh,
  record s {
    instance_at = some fresh;
    nets = put_net s.nets fresh n;
    shutdown = put_shutdown s.shutdown fresh true;
  },
)

-- net_GetInstance: a new object has the address `fresh`.
unfoldable pub get_instance :
    Allocator → (NetCall → Status) → (ℕ → SafeBuffer) → ℕ → Instances → Outcome (ℕ × Instances)
unfolding keep_instance
get_instance a answer junk fresh s = elim s.instance_at [
  | some p ↦ ok (p, s)
  | none ↦ do n ← new a answer junk; ok (keep_instance fresh s n)
]

-- net_Run with threadRun, which goes through m_pNetlibInst to the loop.
unfoldable pub net_run : Instances → Outcome Instances
net_run s =
    deref s.instance_at λ p. ok (record s { nets = put_net s.nets p (log (s.nets p) run_loop) })

-- The end of the destructor: `m_pshutdown` and `m_puvWright` are deleted and null.
unfoldable pub free_members : ℕ → Instances → Instances
free_members me s = record s { shutdown = put_shutdown s.shutdown me false; wright = false }

-- Behind `delete m_pNetlibInst`: the pointer is cleared and the members are freed.
unfoldable pub unwind : ℕ → Option (Outcome Instances) → Option (Outcome Instances)
unfolding free_members
unwind me none = none
unwind me (some abort) = some abort
unwind me (some fault) = some fault
unwind me (some (ok t)) = some (ok (free_members me (record t { instance_at = none })))

-- The destructor behind net_Stop. `run` is the destructor of the object that is deleted.
unfoldable pub delete_instance :
    (ℕ → Instances → Option (Outcome Instances))
    → ℕ
    → Option ℕ
    → Instances
    → Option (Outcome Instances)
unfolding free_members unwind
delete_instance run me none s = some (ok (free_members me s))
delete_instance run me (some p) s = unwind me (run p s)

unfoldable pub after_stop :
    (ℕ → Instances → Option (Outcome Instances))
    → ℕ
    → Outcome Net
    → Instances
    → Option (Outcome Instances)
unfolding delete_instance
after_stop run me abort s = some abort
after_stop run me fault s = some fault
after_stop run me (ok n) s =
    delete_instance run me s.instance_at (record s { nets = put_net s.nets me n })

-- ~netlibuv of the object at `me`, with `delete m_pNetlibInst` as a call of the same destructor.
-- The first number bounds the depth of these calls; `none` is a run that is deeper. `answer` is what
-- uv_timer_stop returns.
unfoldable pub destroy : ℕ → Status → ℕ → Instances → Option (Outcome Instances)
unfolding after_stop net_stop
destroy zero answer me s = none
destroy (suc depth) answer me s =
    after_stop (destroy depth answer) me (net_stop answer (s.nets me)) s

-- While the instance is set the destructor of any object calls itself.
never_ends :
    (depth me p : ℕ) (s : Instances) → s.instance_at ≡ some p → destroy depth success me s ≡ none
unfolding destroy net_stop_timer unwind
never_ends zero me p s e = refl
never_ends (suc depth) me p s e =
    let stopped : Instances = record s {
      nets = put_net s.nets me (log (s.nets me) (stop_timer user_timer));
    } in
    ap (λ o. delete_instance (destroy depth success) me o stopped) e
    ∙ ap (unwind me) (never_ends depth p p stopped e)

-- What is left when there is no instance.
abbrev pub freed : ℕ → Instances → Instances
freed me s = record s {
  nets = put_net s.nets me (log (s.nets me) (stop_timer user_timer));
  shutdown = put_shutdown s.shutdown me false;
  wright = false;
}

ends_at_once :
    (depth me : ℕ) (s : Instances)
    → s.instance_at ≡ none
    → destroy (suc depth) success me s ≡ some (ok (freed me s))
unfolding destroy net_stop_timer free_members
ends_at_once depth me s e = rw e refl

-- The destructor of an object, for which uv_timer_stop succeeds, comes to an end, with whatever
-- result, exactly if no instance is set. Either no instance is set, and one call, at whatever depth,
-- stops the timer, frees the two members, and leaves all else as it was; or one is set, and the calls
-- of the destructor are nested without bound: no depth of them is enough.
pub destroy_ends :
    (me : ℕ) (s : Instances)
    → (((depth : ℕ) × (r : Outcome Instances) × (destroy depth success me s ≡ some r))
        ↔ (s.instance_at ≡ none))
      × (((s.instance_at ≡ none)
            × ((depth : ℕ) → destroy (suc depth) success me s ≡ some (ok (freed me s))))
          ⊎ ((p : ℕ) × (s.instance_at ≡ some p)
              × ((depth : ℕ) → destroy depth success me s ≡ none)))
destroy_ends me s = (
  (ended s.instance_at refl, λ e. (1, ok (freed me s), ends_at_once 0 me s e)),
  either s.instance_at refl,
)
  where
    ended :
        (o : Option ℕ)
        → s.instance_at ≡ o
        → (depth : ℕ) × (r : Outcome Instances) × (destroy depth success me s ≡ some r)
        → s.instance_at ≡ none
    ended none e x = e
    ended (some p) e (depth, r, done) =
        absurd (none-ne-some (sym (never_ends depth me p s e) ∙ done))

    either :
        (o : Option ℕ)
        → s.instance_at ≡ o
        → ((s.instance_at ≡ none)
            × ((depth : ℕ) → destroy (suc depth) success me s ≡ some (ok (freed me s))))
          ⊎ ((p : ℕ) × (s.instance_at ≡ some p) × ((depth : ℕ) → destroy depth success me s ≡ none))
    either none e = inl (e, λ depth. ends_at_once depth me s e)
    either (some p) e = inr (p, e, λ depth. never_ends depth me p s e)

get_instance_sets :
    (a : Allocator) (answer : NetCall → Status) (junk : ℕ → SafeBuffer) (fresh : ℕ) (s : Instances)
    (p : ℕ) (t : Instances)
    → get_instance a answer junk fresh s ≡ ok (p, t)
    → t.instance_at ≡ some p
unfolding get_instance
get_instance_sets a answer junk fresh s p t e = ground arith

-- What net_GetInstance gives can never be destroyed: when it succeeds, with or without an instance
-- before, no depth of calls is enough for the destructor of the object.
instance_stays :
    (a : Allocator) (answer : NetCall → Status) (junk : ℕ → SafeBuffer) (fresh p : ℕ)
    (s t : Instances)
    → get_instance a answer junk fresh s ≡ ok (p, t)
    → (t.instance_at ≡ some p) × ((depth : ℕ) → destroy depth success p t ≡ none)
unfolding get_instance
instance_stays a answer junk fresh p s t e =
    let set = get_instance_sets a answer junk fresh s p t e in
    (set, λ depth. never_ends depth p p t set)
