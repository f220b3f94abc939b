-- ===== src/Ops/Doctor/SchemaObjects.antt =====
-- apps/server/src/ops/doctor.ts: the objects that the doctor expects in the database.
use Prim.Native.String.{String}
use koharu_suite.Prelude.{List, [], ◌∷◌}

-- `EXPECTED_DATABASE_OBJECTS`.
abbrev pub expected_database_objects : List String
expected_database_objects =
    "drizzle.__drizzle_migrations" ∷ "app_metadata" ∷ "auth_accounts" ∷ "auth_api_keys"
    ∷ "auth_api_keys.enabled" ∷ "auth_api_keys.expires_at" ∷ "auth_api_keys.key"
    ∷ "auth_api_keys.permissions" ∷ "auth_api_keys.reference_id" ∷ "auth_sessions"
    ∷ "auth_two_factors" ∷ "auth_users" ∷ "auth_verifications" ∷ "import_run_observations"
    ∷ "import_run_observations.observation_id" ∷ "import_run_observations.replayed"
    ∷ "import_run_observations.resolution_at_run" ∷ "import_run_observations.run_id"
    ∷ "import_run_coverages" ∷ "import_run_coverages.end_message_id"
    ∷ "import_run_coverages.explicitly_complete" ∷ "import_run_coverages.run_id"
    ∷ "import_run_coverages.start_message_id" ∷ "import_run_coverages.telegram_chat_id"
    ∷ "import_runs" ∷ "import_runs.report" ∷ "import_runs.status" ∷ "message_media"
    ∷ "message_media.source_kind" ∷ "message_media.source_path" ∷ "message_revisions"
    ∷ "message_revisions.html" ∷ "message_revisions.renderer_version"
    ∷ "message_revisions.telegram_update_id" ∷ "message_source_observations"
    ∷ "message_source_observations.content_fingerprint_version" ∷ "message_source_observations.id"
    ∷ "message_source_observations.raw_json" ∷ "message_source_observations.revision_id"
    ∷ "message_source_observations.source_kind" ∷ "message_source_media_observations"
    ∷ "message_source_media_observations.availability"
    ∷ "message_source_media_observations.desktop_source_path"
    ∷ "message_source_media_observations.observation_id"
    ∷ "message_source_media_observations.source_kind"
    ∷ "message_source_media_observations.telegram_file_id"
    ∷ "message_source_media_observations.telegram_file_unique_id" ∷ "messages"
    ∷ "messages.tombstoned_at" ∷ "operation_audit_events" ∷ "operation_audit_events.reason"
    ∷ "owners" ∷ "reconciliation_actions" ∷ "reconciliation_actions.reason"
    ∷ "reconciliation_findings" ∷ "reconciliation_findings.evidence_version"
    ∷ "reconciliation_findings.sanitized_details" ∷ "reconciliation_findings.telegram_chat_id"
    ∷ "reconciliation_runs" ∷ "reconciliation_runs.report" ∷ "reconciliation_schedule"
    ∷ "reconciliation_schedule.claimed_run_id" ∷ "reconciliation_schedule.lease_expires_at"
    ∷ "reconciliation_schedule.lease_owner" ∷ "reconciliation_schedule.lease_token"
    ∷ "reconciliation_schedule.next_run_at" ∷ "telegram_channel_allowlist"
    ∷ "telegram_channel_allowlist.disabled_at" ∷ "telegram_channel_allowlist.enabled"
    ∷ "telegram_channels" ∷ "telegram_ingest_tasks" ∷ "telegram_ingest_tasks.skip_reason"
    ∷ "telegram_ingest_tasks.skipped_at" ∷ "telegram_poll_receipts"
    ∷ "telegram_poll_receipts.checkpoint_offset" ∷ "telegram_poll_receipts.requested_offset"
    ∷ "telegram_polling_state" ∷ "telegram_updates" ∷ "worker_runtime"
    ∷ "worker_runtime.heartbeat_at" ∷ "worker_runtime.instance_id"
    ∷ "worker_runtime.last_telegram_success_at" ∷ "worker_runtime.state" ∷ "media_cache_runtime"
    ∷ "media_cache_runtime.singleton_key" ∷ "media_cache_runtime.discovery_cursor_created_at"
    ∷ "media_cache_runtime.discovery_cursor_id" ∷ "media_cache_runtime.ready_bytes"
    ∷ "media_cache_runtime.reserved_bytes" ∷ "media_cache_runtime.max_bytes"
    ∷ "media_cache_runtime.last_reconciled_at" ∷ "media_cache_runtime.updated_at"
    ∷ "media_cache_post_plans" ∷ "media_cache_post_plans.id" ∷ "media_cache_post_plans.message_id"
    ∷ "media_cache_post_plans.revision_id" ∷ "media_cache_post_plans.state"
    ∷ "media_cache_post_plans.ready_original_bytes"
    ∷ "media_cache_post_plans.reserved_original_bytes" ∷ "media_cache_post_plans.reason_code"
    ∷ "media_cache_post_plans.last_error_class" ∷ "media_cache_post_plans.last_error_code"
    ∷ "media_cache_post_plans.attempt_count" ∷ "media_cache_post_plans.available_at"
    ∷ "media_cache_post_plans.lease_owner" ∷ "media_cache_post_plans.lease_token"
    ∷ "media_cache_post_plans.lease_expires_at" ∷ "media_cache_post_plans.created_at"
    ∷ "media_cache_post_plans.updated_at" ∷ "media_cache_blobs" ∷ "media_cache_blobs.sha256"
    ∷ "media_cache_blobs.byte_length" ∷ "media_cache_blobs.detected_mime"
    ∷ "media_cache_blobs.relative_key" ∷ "media_cache_blobs.state"
    ∷ "media_cache_blobs.eviction_owner" ∷ "media_cache_blobs.eviction_token"
    ∷ "media_cache_blobs.eviction_expires_at" ∷ "media_cache_blobs.last_accessed_at"
    ∷ "media_cache_blobs.created_at" ∷ "media_cache_blobs.updated_at" ∷ "media_cache_objects"
    ∷ "media_cache_objects.id" ∷ "media_cache_objects.post_plan_id"
    ∷ "media_cache_objects.revision_id" ∷ "media_cache_objects.canonical_media_id"
    ∷ "media_cache_objects.variant" ∷ "media_cache_objects.recipe_version"
    ∷ "media_cache_objects.state" ∷ "media_cache_objects.blob_sha256"
    ∷ "media_cache_objects.declared_bytes" ∷ "media_cache_objects.reserved_bytes"
    ∷ "media_cache_objects.actual_bytes" ∷ "media_cache_objects.reason_code"
    ∷ "media_cache_objects.last_error_class" ∷ "media_cache_objects.last_error_code"
    ∷ "media_cache_objects.attempt_count" ∷ "media_cache_objects.available_at"
    ∷ "media_cache_objects.lease_owner" ∷ "media_cache_objects.lease_token"
    ∷ "media_cache_objects.lease_expires_at" ∷ "media_cache_objects.last_accessed_at"
    ∷ "media_cache_objects.created_at" ∷ "media_cache_objects.updated_at"
    ∷ "media_cache_object_sources" ∷ "media_cache_object_sources.object_id"
    ∷ "media_cache_object_sources.source_media_observation_id"
    ∷ "media_cache_object_sources.source_priority" ∷ "media_cache_actions"
    ∷ "media_cache_actions.id" ∷ "media_cache_actions.object_id" ∷ "media_cache_actions.blob_sha256"
    ∷ "media_cache_actions.action_kind" ∷ "media_cache_actions.initiator_kind"
    ∷ "media_cache_actions.initiator_id" ∷ "media_cache_actions.reason"
    ∷ "media_cache_actions.before_state" ∷ "media_cache_actions.after_state"
    ∷ "media_cache_actions.created_at" ∷ "media_cache_commands" ∷ "media_cache_commands.id"
    ∷ "media_cache_commands.operation" ∷ "media_cache_commands.state"
    ∷ "media_cache_commands.object_id" ∷ "media_cache_commands.initiator_id"
    ∷ "media_cache_commands.reason" ∷ "media_cache_commands.attempt_count"
    ∷ "media_cache_commands.lease_owner" ∷ "media_cache_commands.lease_token"
    ∷ "media_cache_commands.lease_expires_at" ∷ "media_cache_commands.result"
    ∷ "media_cache_commands.error_code" ∷ "media_cache_commands.created_at"
    ∷ "media_cache_commands.updated_at" ∷ "media_cache_commands.completed_at"
    ∷ "constraint:public.media_cache_runtime_pkey"
    ∷ "constraint:public.media_cache_runtime_singleton_check"
    ∷ "constraint:public.media_cache_runtime_cursor_check"
    ∷ "constraint:public.media_cache_runtime_ledger_check"
    ∷ "constraint:public.media_cache_post_plans_revision_message_fk"
    ∷ "constraint:public.media_cache_post_plans_pkey"
    ∷ "constraint:public.media_cache_post_plans_id_revision_unique"
    ∷ "constraint:public.media_cache_post_plans_revision_unique"
    ∷ "constraint:public.media_cache_post_plans_state_check"
    ∷ "constraint:public.media_cache_post_plans_budget_check"
    ∷ "constraint:public.media_cache_post_plans_attempt_check"
    ∷ "constraint:public.media_cache_post_plans_lease_check"
    ∷ "constraint:public.media_cache_blobs_sha256_check"
    ∷ "constraint:public.media_cache_blobs_pkey"
    ∷ "constraint:public.media_cache_blobs_byte_length_check"
    ∷ "constraint:public.media_cache_blobs_mime_check"
    ∷ "constraint:public.media_cache_blobs_relative_key_check"
    ∷ "constraint:public.media_cache_blobs_state_check"
    ∷ "constraint:public.media_cache_blobs_eviction_lease_check"
    ∷ "constraint:public.media_cache_objects_media_variant_recipe_unique"
    ∷ "constraint:public.media_cache_objects_pkey"
    ∷ "constraint:public.media_cache_objects_plan_revision_fk"
    ∷ "constraint:public.media_cache_objects_media_revision_fk"
    ∷ "constraint:public.media_cache_objects_blob_sha256_media_cache_blobs_sha256_fk"
    ∷ "constraint:public.media_cache_objects_variant_check"
    ∷ "constraint:public.media_cache_objects_recipe_check"
    ∷ "constraint:public.media_cache_objects_state_check"
    ∷ "constraint:public.media_cache_objects_bytes_check"
    ∷ "constraint:public.media_cache_objects_ready_check"
    ∷ "constraint:public.media_cache_objects_attempt_check"
    ∷ "constraint:public.media_cache_objects_lease_check"
    ∷ "constraint:public.media_cache_object_sources_pk"
    ∷ "constraint:public.media_cache_object_sources_object_id_media_cache_objects_id_fk"
    ∷ "constraint:public.media_cache_object_sources_source_media_observation_id_message_"
    ∷ "constraint:public.media_cache_object_sources_priority_check"
    ∷ "constraint:public.media_cache_actions_object_id_media_cache_objects_id_fk"
    ∷ "constraint:public.media_cache_actions_blob_sha256_media_cache_blobs_sha256_fk"
    ∷ "constraint:public.media_cache_actions_pkey"
    ∷ "constraint:public.media_cache_actions_kind_check"
    ∷ "constraint:public.media_cache_actions_initiator_check"
    ∷ "constraint:public.media_cache_actions_reason_check"
    ∷ "constraint:public.media_cache_actions_state_check"
    ∷ "constraint:public.media_cache_commands_pkey"
    ∷ "constraint:public.media_cache_commands_object_id_media_cache_objects_id_fk"
    ∷ "constraint:public.media_cache_commands_operation_check"
    ∷ "constraint:public.media_cache_commands_target_check"
    ∷ "constraint:public.media_cache_commands_initiator_check"
    ∷ "constraint:public.media_cache_commands_attempt_check"
    ∷ "constraint:public.media_cache_commands_lease_check"
    ∷ "constraint:public.media_cache_commands_terminal_check"
    ∷ "index:public.media_cache_post_plans_runnable_idx"
    ∷ "index:public.media_cache_post_plans_state_idx"
    ∷ "index:public.media_cache_post_plans_lease_expiry_idx"
    ∷ "index:public.media_cache_blobs_lru_idx" ∷ "index:public.media_cache_blobs_state_idx"
    ∷ "index:public.media_cache_blobs_eviction_expiry_idx"
    ∷ "index:public.media_cache_objects_plan_state_idx"
    ∷ "index:public.media_cache_objects_blob_state_idx"
    ∷ "index:public.media_cache_objects_state_updated_idx"
    ∷ "index:public.media_cache_objects_blob_plan_idx"
    ∷ "index:public.media_cache_objects_runnable_idx"
    ∷ "index:public.media_cache_objects_lease_expiry_idx"
    ∷ "index:public.media_cache_object_sources_resolver_idx"
    ∷ "index:public.media_cache_object_sources_observation_idx"
    ∷ "index:public.media_cache_actions_created_idx"
    ∷ "index:public.media_cache_actions_object_created_idx"
    ∷ "index:public.media_cache_actions_blob_created_idx"
    ∷ "index:public.media_cache_commands_claim_idx" ∷ "index:public.media_cache_commands_object_idx"
    ∷ "constraint:public.message_source_media_observations_observation_source_fk"
    ∷ "constraint:public.message_source_media_observations_source_check"
    ∷ "constraint:public.message_source_observations_id_source_kind_unique"
    ∷ "constraint:public.import_run_observations_observation_source_fk"
    ∷ "constraint:public.import_run_observations_pk"
    ∷ "constraint:public.import_run_observations_resolution_check"
    ∷ "constraint:public.import_run_observations_source_kind_check"
    ∷ "constraint:public.import_run_coverages_explicit_check"
    ∷ "constraint:public.import_run_coverages_pk"
    ∷ "constraint:public.import_run_coverages_range_check"
    ∷ "constraint:public.reconciliation_findings_channel_scope_check"
    ∷ "constraint:public.reconciliation_schedule_lease_check"
    ∷ "constraint:public.telegram_poll_receipts_counts_check"
    ∷ "constraint:public.telegram_poll_receipts_range_check" ∷ []
