-- ===== src/Docker/Labels.antt =====
-- internal/docker/labels.go: the label keys and values.
use openwatch.Base.Text.{Text, codes}

abbrev pub label_enable : Text
label_enable = codes "openwatch.enable"

abbrev pub label_self : Text
label_self = codes "openwatch.self"

abbrev pub label_rollback : Text
label_rollback = codes "openwatch.rollback"

abbrev pub label_cleanup : Text
label_cleanup = codes "openwatch.cleanup"

abbrev pub label_notify_only : Text
label_notify_only = codes "openwatch.notify_only"

abbrev pub label_stop_timeout : Text
label_stop_timeout = codes "openwatch.stop_timeout"

abbrev pub label_depends_on : Text
label_depends_on = codes "openwatch.depends_on"

abbrev pub label_value_true : Text
label_value_true = codes "true"

abbrev pub label_value_false : Text
label_value_false = codes "false"
