-- ===== src/External.antt =====
-- The libraries that the program calls, as parameters with the behaviour that they document: redb's
-- ordered tables, postcard's formats, tokio's watch channels. `External` collects them.
use memable.Prelude.{
  ℕ, suc, ◌-◌, ◌≡◌, ◌⊎◌, inr, Bool, ◌&&◌, ◌||◌, not, Option, none, some, List, ◌∈◌, keep, ltb, ◌==◌,
  if◌then◌else◌,
}
use memable.Text.{Text, text_eq, text_lt}
use memable.State.{WorkflowState}
use memable.Status.{WorkflowMetadata}
use memable.Journal.{Bytes, StepData, StepEnvelope, TimerEntry}

-- A redb table inside a transaction. `iter` goes in key order; a range is a part of it.
pub record OrderedMap (K : Type 0) (eq lt : K → K → Bool) : Type 1 where
  pub Table : Type 0
  pub get : Table → K → Option Bytes
  pub insert : Table → K → Bytes → Table
  pub remove : Table → K → Table
  pub iter : Table → List (K × Bytes)
  pub range : Table → K → K → List (K × Bytes)
  pub range_inclusive : Table → K → K → List (K × Bytes)
  pub get-insert :
      (t : Table) (k j : K) (v : Bytes)
      → get (insert t k v) j ≡ (if eq k j then some v else get t j)
  pub get-remove : (t : Table) (k j : K) → get (remove t k) j ≡ (if eq k j then none else get t j)
  pub get_of_iter : (t : Table) (k : K) (v : Bytes) → (k, v) ∈ iter t → get t k ≡ some v
  pub iter_of_get : (t : Table) (k : K) (v : Bytes) → get t k ≡ some v → (k, v) ∈ iter t
  pub range_lem :
      (t : Table) (lo hi : K) → range t lo hi ≡ keep (λ e. not (lt e.0 lo) && lt e.0 hi) (iter t)
  pub range_inclusive_lem :
      (t : Table) (lo hi : K)
      → range_inclusive t lo hi ≡ keep (λ e. not (lt e.0 lo) && not (lt hi e.0)) (iter t)

-- The key `(deadline, serial)` of the timer table, compared as a pair.
abbrev pub TimerKey : Type 0
TimerKey = ℕ × ℕ

abbrev pub timer_eq : TimerKey → TimerKey → Bool
timer_eq a b = a.0 == b.0 && a.1 == b.1

abbrev pub timer_lt : TimerKey → TimerKey → Bool
timer_lt a b = ltb a.0 b.0 || (a.0 == b.0 && ltb a.1 b.1)

-- postcard's encoding of a serde type. The left side is an error's display text.
pub record Format (A : Type 0) : Type 0 where
  pub to_allocvec : A → Text ⊎ Bytes
  pub from_bytes : Bytes → Text ⊎ A
  pub round_trip : (a : A) (b : Bytes) → to_allocvec a ≡ inr b → from_bytes b ≡ inr a

-- A type `T: Serialize + DeserializeOwned`: its name and the derived format of `StepData<T>`.
pub record Payload (T : Type 0) : Type 0 where
  pub type_name : Text
  pub step_data : Format (StepData T)

-- A tokio watch channel. `send` writes nothing once every receiver is dropped; `send_if_modified`
-- with a closure that writes `v` and returns false always writes.
pub record Watch (V : Type 0) : Type 1 where
  pub Channel : Type 0
  pub channel : V → Channel
  pub borrow : Channel → V
  pub receiver_count : Channel → ℕ
  pub subscribe : Channel → Channel
  pub drop_receiver : Channel → Channel
  pub send : Channel → V → Channel
  pub send_quietly : Channel → V → Channel
  pub borrow-channel : (v : V) → borrow (channel v) ≡ v
  pub borrow-subscribe : (c : Channel) → borrow (subscribe c) ≡ borrow c
  pub borrow-drop_receiver : (c : Channel) → borrow (drop_receiver c) ≡ borrow c
  pub borrow-send :
      (c : Channel) (v : V) → borrow (send c v) ≡ (if receiver_count c == 0 then borrow c else v)
  pub borrow-send_quietly : (c : Channel) (v : V) → borrow (send_quietly c v) ≡ v
  pub receiver_count-channel : (v : V) → receiver_count (channel v) ≡ 0
  pub receiver_count-subscribe :
      (c : Channel) → receiver_count (subscribe c) ≡ suc (receiver_count c)
  pub receiver_count-drop_receiver :
      (c : Channel) → receiver_count (drop_receiver c) ≡ receiver_count c - 1
  pub receiver_count-send : (c : Channel) (v : V) → receiver_count (send c v) ≡ receiver_count c
  pub receiver_count-send_quietly :
      (c : Channel) (v : V) → receiver_count (send_quietly c v) ≡ receiver_count c

pub record External : Type 1 where
  pub texts : OrderedMap Text text_eq text_lt
  pub timers : OrderedMap TimerKey timer_eq timer_lt
  pub watch : Watch WorkflowState
  pub envelope : Format StepEnvelope
  pub metadata : Format WorkflowMetadata
  pub timer_entry : Format TimerEntry
  -- the standard types that the engine itself stores
  pub unit : Payload (Unit {0})
