-- ===== src/Core/Mailbox/Overload.antt =====
-- The overload threshold of a mailbox.
use rskynet.Core.Mailbox.{Mailbox}
