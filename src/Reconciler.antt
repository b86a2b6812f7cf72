-- ===== src/Reconciler.antt =====
-- pkg/reconciler/componentbuild/componentbuild.go: the constants of the file. Its methods are in
-- the modules below. A `Platform` stands for the fields of the struct ReconcileArtifactBuild (the
-- client, the scheme and the event recorder) and for the library functions that the methods call.
-- Log lines and the context with its timeout are not modelled.
pub mod Artifact
pub mod Notify
pub mod Component
pub mod Runs
pub mod Dispatch
pub mod Plain
pub mod Total
pub mod Marks
pub mod Written
pub mod Lifecycle
pub mod Loops
pub mod Consistency
pub mod Isolation
pub mod Watches
use apheleia.Base.{String}

abbrev pub deploy_task_label : String
deploy_task_label = "apheleia.io/deploy-task"

abbrev pub notify_pipeline_label : String
notify_pipeline_label = "apheleia.io/notify-pipeline"

abbrev pub apheleia_config : String
apheleia_config = "apheleia-config"

abbrev pub maven_repo : String
maven_repo = "maven-repo"

abbrev pub aws_domain : String
aws_domain = "aws-domain"

abbrev pub aws_owner : String
aws_owner = "aws-owner"
