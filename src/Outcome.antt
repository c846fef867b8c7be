-- ===== src/Outcome.antt =====
-- What a Go function returns beside its value: an error, made by `errors.New` or `fmt.Errorf` in
-- internal/queue, or a run-time panic.
use deckard.Common.{◌≡◌, refl, ◌⊎◌, inl, inr}

pub data Error : Type 0 where
  invalid_message_queue invalid_queue_to_lock invalid_lock_seconds : Error
  invalid_queue_to_insert : Error
  message_invalid_queue message_invalid_id : Error
  breakpoint_not_int64 : Error
  internal_error_counting : Error
  unavailable : Error
  inserting_cache_data getting_storage_data : Error → Error
  queue_name_contains_hash_tag invalid_lock_time invalid_queue_to_insert_data : Error
  redis_error too_many_results : Error
  removing_cache_elements making_available locking_cache_element parsing_result : Error → Error
  inserting_cache checking_processing getting_cache_element setting_cache_element : Error → Error
  listing_cache_queues : Error → Error
  status_internal status_invalid_argument invalid_client_auth : Error

pub data Result {ℓ} (A : Type ℓ) : Type ℓ where
  ok : A → Result A
  err : Error → Result A
  panic : Result A

pub Result-cases {ℓ} :
    {A : Type ℓ} (r : Result A) → ((a : A) × (r ≡ ok a)) ⊎ ((e : Error) × (r ≡ err e)) ⊎ (r ≡ panic)
Result-cases (ok a) = inl (a, refl)
Result-cases (err e) = inr (inl (e, refl))
Result-cases panic = inr (inr refl)
