-- ===== src/Store/Moves.antt =====
-- What a run does to the tables, by a preorder on them: a run that is made of runs that move along the
-- preorder moves along it, whichever statements fail.
use taffy_assistant.Base.{
  String, Bool, true, false, Option, none, some, List, [], ◌∷◌, ◌≡◌, if◌then◌else◌,
}
use taffy_assistant.Errors.{Error}
use taffy_assistant.Store.{
  Db, World, M, Result, ok, err, pure, fail, ◌>>=◌, wrapping, try, statement,
}

pub record Preorder : Type 1 where
  pub rel : Db → Db → Type 0
  pub stay : (d : Db) → rel d d
  pub chain : (d e f : Db) → rel d e → rel e f → rel d f

pub record Moves (o : Preorder) {A : Type 0} (m : M A) : Type 0 where
  pub along : (w : World) → o.rel w.db (m w).1.db

module _ {o : Preorder} where
  module _ {A : Type 0} where
    pub moves_pure : {a : A} → Moves o (pure a)
    moves_pure = record { along = λ w. o.stay w.db }

    pub moves_fail : {e : Error} → Moves o {A = A} (fail e)
    moves_fail = record { along = λ w. o.stay w.db }

    -- A run that leaves the tables alone.
    pub moves_reading : {m : M A} → ((w : World) → (m w).1.db ≡ w.db) → Moves o m
    moves_reading same = record { along = λ w. rw (same w) (o.stay w.db) }

    pub moves_if : {m n : M A} (b : Bool) → Moves o m → Moves o n → Moves o (if b then m else n)
    moves_if true h k = h
    moves_if false h k = k

    -- A statement, by its effect on the tables.
    pub moves_statement :
        (run : Db → Result A × Db) → ((d : Db) → o.rel d (run d).1) → Moves o (statement run)
    unfolding statement
    moves_statement run h = record { along = λ w. struck w w.faults }
      where
        struck :
            (w : World) (fs : List (Option String))
            → o.rel w.db (statement run (record w { faults = fs })).1.db
        struck w [] = h w.db
        struck w (none ∷ fs) = h w.db
        struck w (some t ∷ fs) = o.stay w.db

    pub moves_wrapping : {m : M A} (f : Error → Error) → Moves o m → Moves o (wrapping f m)
    moves_wrapping {m = m} f h = record { along = λ w. wrapped w (m w) (h.along w) }
      where
        wrapped :
            (w : World) (x : Result A × World)
            → o.rel w.db x.1.db
            → o.rel w.db (wrapping f (λ _. x) w).1.db
        wrapped w (ok a, w') k = k
        wrapped w (err e, w') k = k

    pub moves_try : {m : M A} → Moves o m → Moves o (try m)
    moves_try h = record { along = λ w. h.along w }

  module _ {A B : Type 0} where
    moves_continue :
        (d : Db) (f : A → M B) (x : Result A × World)
        → o.rel d x.1.db
        → ((a : A) → Moves o (f a))
        → o.rel d (((λ _. x) >>= f) x.1).1.db
    moves_continue d f (ok a, w) h k = o.chain d w.db (f a w).1.db h ((k a).along w)
    moves_continue d f (err e, w) h k = h

    pub moves_bind :
        {m : M A} {f : A → M B} → Moves o m → ((a : A) → Moves o (f a)) → Moves o (m >>= f)
    moves_bind {m = m} {f = f} h k = record {
      along = λ w. moves_continue w.db f (m w) (h.along w) k;
    }

    -- What follows a call, by its two outcomes.
    pub moves_result :
        (f : Result A → M B)
        → ((e : Error) → Moves o (f (err e)))
        → ((a : A) → Moves o (f (ok a)))
        → (r : Result A) → Moves o (f r)
    moves_result f h k (err e) = h e
    moves_result f h k (ok a) = k a
