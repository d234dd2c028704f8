-- ===== src/Api/Webhook.antt =====
-- api/v1alpha1/kyuubicluster_webhook.go: the admission of a KyuubiCluster, without its logging. The
-- handlers return warnings and an error, which are nil.
use kyuubi_operator.Base.{String, Option, none, List}
use kyuubi_operator.K8s.Client.{Error}
use kyuubi_operator.Api.{KyuubiCluster}

-- `Default` changes nothing.
unfoldable pub default : KyuubiCluster → KyuubiCluster
default r = r

unfoldable pub validate_create : KyuubiCluster → Option (List String) × Option Error
validate_create r = (none, none)

unfoldable pub validate_update :
    {Object : Type 0} → KyuubiCluster → Object → Option (List String) × Option Error
validate_update r old = (none, none)

unfoldable pub validate_delete : KyuubiCluster → Option (List String) × Option Error
validate_delete r = (none, none)
