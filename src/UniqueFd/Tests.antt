-- ===== src/UniqueFd/Tests.antt =====
-- Two objects and a third one: a move, a reset, a release and the end of an object.
use cpp_backend_server.Base.{false, ◌≡◌, refl, some, List, [], ◌∷◌, ◌+◌}
use cpp_backend_server.UniqueFd.{
  Descriptors, is_valid, fd_of, put, add, construct, move_construct, move_assign, release, reset,
  destroy, Operation, constructing, move_constructing, move_assigning, releasing, resetting,
  destroying, operate,
}
use cpp_backend_server.UniqueFd.Ownership.{held, Exist, taken, play, AllExist, held-play}

abbrev nobody : Descriptors
nobody = record { owners = []; closed = []; lent = [] }

abbrev life : List Operation
life =
    constructing (some 5)
    ∷ constructing (some 6)
    ∷ move_assigning 0 1
    ∷ move_constructing 0
    ∷ move_assigning 0 0
    ∷ resetting 0 (some 7)
    ∷ releasing 0
    ∷ destroying 0
    ∷ []

life-closed : (play life nobody).closed ≡ 5 ∷ 6 ∷ []
unfolding play operate construct move_construct move_assign release reset destroy fd_of put add
life-closed = refl

-- A move leaves nothing behind.
life-moved : is_valid (fd_of 1 (play life nobody).owners) ≡ false
unfolding is_valid play operate construct move_construct move_assign release reset destroy fd_of put
    add
life-moved = refl

life-AllExist : AllExist life nobody
unfolding AllExist Exist operate construct move_construct move_assign release reset destroy fd_of
    put add
life-AllExist = (tt, (tt, ((refl, refl), (refl, ((refl, refl), (refl, (refl, (refl, tt))))))))

held-play_example : held 6 (play life nobody) ≡ taken 6 life + held 6 nobody
held-play_example = held-play 6 life nobody life-AllExist
