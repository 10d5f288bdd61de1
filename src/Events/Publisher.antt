-- ===== src/Events/Publisher.antt =====
-- The methods of `Publisher`. Each holds the mutex throughout, so it is one step.
use qcontroller.Base.{
  String, ℕ, Bool, false, Option, none, some, List, [], ◌∷◌, ◌++◌, if◌then◌else◌, ltb, length, Dict,
  lookup, insert, delete,
}
use qcontroller.Vm.{Info}

pub data VmEventType : Type 0 where
  vm_updated_type vm_removed_type : VmEventType

pub data ImageEventType : Type 0 where
  image_uploaded image_removed : ImageEventType

-- event.v1.Update's `oneof payload`
pub data Payload : Type 0 where
  vm_event : VmEventType → Info → Payload
  image_event : ImageEventType → String → Payload
  progress_event : String → String → ℕ → Payload
  error_event : String → String → Payload

pub record Update : Type 0 where
  pub timestamp : ℕ
  pub payload : Payload

-- `queue` is the content of the channel `ch`, whose buffer has `capacity` places.
pub record Publisher : Type 0 where
  pub queue : List Update
  pub capacity : ℕ
  pub cache : Dict Info

pub data QueueFull : Type 0 where
  queue_full : QueueFull

-- publish: a send that does not block
unfoldable pub publish : Update → Publisher → Publisher × Option QueueFull
publish u p =
    if ltb (length p.queue) p.capacity
    then (record p { queue = p.queue ++ u ∷ [] }, none)
    else (p, some queue_full)

abbrev pub is_cached : (Info → Info → Bool) → Info → Option Info → Bool
is_cached equal info none = false
is_cached equal info (some prev) = equal prev info

-- VMUpdated
unfoldable pub vm_updated :
    (Info → Info → Bool) → ℕ → Info → Publisher → Publisher × Option QueueFull
vm_updated equal now info p =
    if is_cached equal info (lookup info.name p.cache)
    then (p, none)
    else publish (record { timestamp = now; payload = vm_event vm_updated_type info })
        (record p { cache = insert info.name info p.cache })

-- VMRemoved
unfoldable pub vm_removed : ℕ → String → Publisher → Publisher × Option QueueFull
vm_removed now id p =
    publish
      (record {
        timestamp = now;
        payload = vm_event vm_removed_type (record { name = id; spec = none; status = none });
      })
      (record p { cache = delete id p.cache })

-- GetAll; Go's order of iteration over the map is the argument
unfoldable pub get_all : (Dict Info → List Info) → Publisher → List Info
get_all order p = order p.cache

-- Get
unfoldable pub get : String → Publisher → Option Info
get name p = lookup name p.cache

-- PublishImageUpdate
unfoldable pub publish_image_update :
    ℕ → String → ImageEventType → Publisher → Publisher × Option QueueFull
publish_image_update now image type =
    publish (record { timestamp = now; payload = image_event type image })

-- PublishProgress
unfoldable pub publish_progress : ℕ → String → String → ℕ → Publisher → Publisher × Option QueueFull
publish_progress now resource message percent =
    publish (record { timestamp = now; payload = progress_event resource message percent })

-- PublishError
unfoldable pub publish_error : ℕ → String → String → Publisher → Publisher × Option QueueFull
publish_error now message resource =
    publish (record { timestamp = now; payload = error_event message resource })
