-- ===== src/Controller/MainLoop.antt =====
-- `_TemporaryMainLoop` of vmnetx/controller/remote.py: a nested main loop that runs until it is told to
-- quit, and then may raise the first error that it was told.
use vmnetx.Prelude.{Bool, true, false, Option, none, some}

pub data Failure : Type 0 where
  connection_failed authentication_failed protocol_error connection_closed : Failure

pub record MainLoop : Type 0 where
  pub error : Option Failure
  pub finished : Bool

unfoldable pub new : MainLoop
new = record { error = none; finished = false }

unfoldable pub quit : MainLoop → MainLoop
quit l = record l { finished = true }

abbrev pub first : Option Failure → Failure → Option Failure
first none e = some e
first (some old) e = some old

unfoldable pub fail : Failure → MainLoop → MainLoop
unfolding quit
fail e l = quit (record l { error = first l.error e })
