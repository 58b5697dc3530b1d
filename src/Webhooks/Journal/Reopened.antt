-- ===== src/Webhooks/Journal/Reopened.antt =====
-- The journal against the map that its interface promises, and what is read back when it is opened
-- again.
use loyalty_interchange_prot.Base.Assoc.{Assoc}
use loyalty_interchange_prot.Webhooks.Journal.{Journal}
