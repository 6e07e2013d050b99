-- ===== src/Data/Documents/Arango/Post.antt =====
-- `post_to_arango`: one document is posted until the server tells that it took it. A request without an
-- answer counts as not taken, as for the code, which sends it again; the server may have stored it.
use evernode_se.Common.{
  ℕ, ◌*◌, ◌≡◌, min, Bool, true, false, List, [], ◌∷◌, arith, All, if◌then◌else◌,
}
use evernode_se.Data.Documents.Arango.{
  first_timeout, max_timeout, timeout_backoff_multiplier, Reply, no_answer, status, is_error,
}

-- What has been seen of a call: whether the server took the document, the flag of problems, the sleeps
-- in milliseconds, and the answers that are left.
pub record Posted : Type 0 where
  pub taken : Bool
  pub problems : Bool
  pub sleeps : List ℕ
  pub replies : List Reply

-- An answer to a request: is it a success?
unfoldable pub is_success : Reply → Bool
is_success no_answer = false
is_success (status code) = if is_error code then false else true

abbrev pub after_sleep : ℕ → Posted → Posted
after_sleep timeout p = record p { sleeps = timeout ∷ p.sleeps }

-- The loop, from its timeout and the flag of problems.
unfoldable pub post_loop : ℕ → Bool → List Reply → Posted
post_loop timeout problems [] = record {
  taken = false;
  problems = problems;
  sleeps = [];
  replies = [];
}
post_loop timeout problems (r ∷ rs) =
    let again =
      after_sleep timeout
        (post_loop (min max_timeout (timeout * timeout_backoff_multiplier)) true rs) in
    if is_success r
    then record { taken = true; problems = false; sleeps = []; replies = rs }
    else again

unfoldable pub post_to_arango : Bool → List Reply → Posted
unfolding post_loop
post_to_arango problems rs = post_loop first_timeout problems rs

post_loop-sleeps :
    (problems : Bool) (rs : List Reply)
    → All (λ t. t ≡ first_timeout) (post_loop first_timeout problems rs).sleeps
unfolding post_loop
post_loop-sleeps problems [] = tt
post_loop-sleeps problems (r ∷ rs) = ground (arith, post_loop-sleeps true rs)

-- The backoff has no effect: whatever the server answers and however long it fails, each sleep between
-- two requests for a document is the first timeout.
pub post_to_arango-sleeps :
    (problems : Bool) (rs : List Reply)
    → All (λ t. t ≡ first_timeout) (post_to_arango problems rs).sleeps
unfolding post_to_arango
post_to_arango-sleeps problems rs = post_loop-sleeps problems rs
