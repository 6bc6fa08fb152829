-- ===== src/Replicate/Quiet/Operations.antt =====
-- Every operation, and the loop of `replicate`, under a mask without ACT_REPLICATE.
use ioapps.Replicate.Quiet.{Quiet}
use ioapps.Replicate.World.{World}
use ioapps.Trace
