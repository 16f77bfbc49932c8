-- ===== src/External/Queues.antt =====
-- What follows from the laws of the queues.
use tcp_archive.Prelude.{◌≡◌, ◌∙◌, ap, some, [], ◌∷◌, ◌++◌}
use tcp_archive.External.{Bqueue}

-- The one entry of a queue.
pub dequeue-enqueue :
    (B : Bqueue) {A : Type 0} (q : B.Queue A) (a : A)
    → B.contents q ≡ []
    → (q' : B.Queue A) × (B.dequeue (B.enqueue q a) ≡ some (a, q')) × (B.contents q' ≡ [])
dequeue-enqueue B q a e =
    B.dequeue_some (B.enqueue q a) a [] (B.contents-enqueue q a ∙ ap (λ l. l ++ (a ∷ [])) e)
