-- ===== src/Schedule/Runtime/Rows.antt =====
-- What an update does to the rows, for the proofs about the operations.
use openmate.Base.{GoString, List, [], ◌∷◌, ◌++◌, All, arith}
use openmate.Schedule.Runtime.{TopicControlState, NodeQueueState, update_topic, update_node}

module _ (P : NodeQueueState → Type 0) (topic node : GoString) (f : NodeQueueState → NodeQueueState)
    (step : (row : NodeQueueState) → P row → P (f row)) where
  pub All-update_node :
      (rows : List NodeQueueState) → All P rows → All P (update_node topic node f rows)
  unfolding update_node
  All-update_node [] a = tt
  All-update_node (row ∷ rows) a = ground (arith, All-update_node rows a.1, step row a.0)

module _ (P : TopicControlState → Type 0) (topic : GoString)
    (f : TopicControlState → TopicControlState)
    (step : (t : TopicControlState) → P t → P (f t)) where
  pub All-update_topic :
      (rows : List TopicControlState) → All P rows → All P (update_topic topic f rows)
  unfolding update_topic
  All-update_topic [] a = tt
  All-update_topic (t ∷ rows) a = ground (arith, All-update_topic rows a.1, step t a.0)

module _ {A : Type 0} where
  pub All-append : (P : A → Type 0) (xs : List A) (x : A) → All P xs → P x → All P (xs ++ x ∷ [])
  All-append P [] x a h = (h, tt)
  All-append P (y ∷ ys) x a h = (a.0, All-append P ys x a.1 h)

  pub All-map : (P Q : A → Type 0) (f : (x : A) → P x → Q x) (xs : List A) → All P xs → All Q xs
  All-map P Q f [] a = tt
  All-map P Q f (x ∷ xs) a = (f x a.0, All-map P Q f xs a.1)
