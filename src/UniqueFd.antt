-- ===== src/UniqueFd.antt =====
-- src/common/UniqueFd.cpp: the owners of descriptors, and the calls of `close` that they make. An
-- owner stands for the object of its index; -1 is `none`, and a descriptor is never another negative
-- number.
pub mod Ownership
pub mod Tests
use cpp_backend_server.Base.{
  ℕ, zero, suc, Bool, true, false, Option, none, some, List, [], ◌∷◌, ◌==◌, if◌then◌else◌,
}

pub record Descriptors : Type 0 where
  pub owners : List (Option ℕ)
  pub closed : List ℕ
  pub lent : List ℕ

-- The objects, by their addresses.
unfoldable pub fd_of : ℕ → List (Option ℕ) → Option ℕ
fd_of i [] = none
fd_of zero (o ∷ os) = o
fd_of (suc i) (o ∷ os) = fd_of i os

unfoldable pub put : ℕ → Option ℕ → List (Option ℕ) → List (Option ℕ)
put i v [] = []
put zero v (o ∷ os) = v ∷ os
put (suc i) v (o ∷ os) = o ∷ put i v os

-- `if (fd_ != -1) ::close(fd_)`, and `release` passes a descriptor to its caller.
unfoldable pub add : Option ℕ → List ℕ → List ℕ
add none fds = fds
add (some fd) fds = fd ∷ fds

-- `valid`
unfoldable pub is_valid : Option ℕ → Bool
is_valid none = false
is_valid (some fd) = true

-- `UniqueFd(int)`, a new object; `UniqueFd()` is it with -1.
unfoldable pub construct : Option ℕ → Descriptors → Descriptors
construct fd s = record { owners = fd ∷ s.owners; closed = s.closed; lent = s.lent }

-- `UniqueFd(UniqueFd&&)`, a new object.
unfoldable pub move_construct : ℕ → Descriptors → Descriptors
move_construct other s = record {
  owners = fd_of other s.owners ∷ put other none s.owners;
  closed = s.closed;
  lent = s.lent;
}

-- `operator=(UniqueFd&&)`
unfoldable pub move_assign : ℕ → ℕ → Descriptors → Descriptors
move_assign this other s = if this == other then s else record {
  owners = put other none (put this (fd_of other s.owners) s.owners);
  closed = add (fd_of this s.owners) s.closed;
  lent = s.lent;
}

-- `release`
unfoldable pub release : ℕ → Descriptors → Descriptors
release this s = record {
  owners = put this none s.owners;
  closed = s.closed;
  lent = add (fd_of this s.owners) s.lent;
}

-- `reset`
unfoldable pub reset : ℕ → Option ℕ → Descriptors → Descriptors
reset this new_fd s = record {
  owners = put this new_fd s.owners;
  closed = add (fd_of this s.owners) s.closed;
  lent = s.lent;
}

-- `~UniqueFd`; the object is no more, so that it owns nothing.
unfoldable pub destroy : ℕ → Descriptors → Descriptors
destroy this s = record {
  owners = put this none s.owners;
  closed = add (fd_of this s.owners) s.closed;
  lent = s.lent;
}

-- The operations, with the descriptor that they take over.
pub data Operation : Type 0 where
  constructing : Option ℕ → Operation
  move_constructing : ℕ → Operation
  move_assigning : ℕ → ℕ → Operation
  releasing : ℕ → Operation
  resetting : ℕ → Option ℕ → Operation
  destroying : ℕ → Operation

unfoldable pub operate : Operation → Descriptors → Descriptors
operate (constructing fd) s = construct fd s
operate (move_constructing other) s = move_construct other s
operate (move_assigning this other) s = move_assign this other s
operate (releasing this) s = release this s
operate (resetting this fd) s = reset this fd s
operate (destroying this) s = destroy this s
