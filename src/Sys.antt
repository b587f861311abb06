-- ===== src/Sys.antt =====
-- Results of the system calls that the program reacts to: a call is a parameter of the model, and
-- its result is an argument of the function that makes it.

-- The values of `errno` that the code tells apart (EWOULDBLOCK is EAGAIN on Linux).
pub data Errno : Type 0 where
  no_errno eagain eintr econnreset enosys echild other_errno : Errno
