-- ===== src/Tests/Settings.antt =====
-- The names of received files, at concrete inputs.
use remote_control.Base.Text.{codes}
use remote_control.Connection.Names.{sanitize_filename}
use remote_control.Connection.Names.Safe.{sanitize_filename-Safe, Safe}

-- A name that would leave the folder.
sanitize_filename-Safe_example : Safe (sanitize_filename (codes "../../evil"))
sanitize_filename-Safe_example = sanitize_filename-Safe (codes "../../evil")
