-- ===== src/Store/Scenarios.antt =====
-- A store on concrete files: an empty one, one with a genesis root, and one with the entry of a cancellation.
use visible_agent_loop_proto.Kernel.Digests.{canonical_evidence}
use visible_agent_loop_proto.Prelude.{
  pos, String, Bool, true, false, Option, none, some, List, [], ◌∷◌, ◌≡◌, refl, ◌==◌, string_eq,
  if◌then◌else◌, map,
}
use visible_agent_loop_proto.Json.{Json, sorted}
use visible_agent_loop_proto.Kernel.Identities.{Identity, evidence_canonical}
use visible_agent_loop_proto.Kernel.Results.{Accepted, Result}
use visible_agent_loop_proto.Kernel.Reduce.{reduce}
use visible_agent_loop_proto.Kernel.Checkpoints.{GenesisRoot, ReplayEntry}
use visible_agent_loop_proto.Kernel.Samples.{parity, published, authority}
use visible_agent_loop_proto.Kernel.Scenarios.{after, cancel}
use visible_agent_loop_proto.Store.Readable.{ReadableState, ReadableEvent}
use visible_agent_loop_proto.Store.EntryRoundTrips.{ReadableEntry, ReadableAccepted}

abbrev pub cancelled : Accepted
cancelled = after (reduce published cancel authority)

abbrev pub root : GenesisRoot
root = record { state = published }

abbrev pub entry : ReplayEntry
entry = record { event = cancel; evidence_set = authority; result = Result.accepted cancelled }

pub published_readable : ReadableState published
published_readable = record {
  installation = record { of_that_kind = refl; has_value = refl };
  task = record { of_that_kind = refl; has_value = refl };
  status = refl;
  events = tt;
  items = (
    record {
      task = record { of_that_kind = refl; has_value = refl };
      item = record { of_that_kind = refl; has_value = refl };
      dependencies = tt;
      attempt = record {
        task = record { of_that_kind = refl; has_value = refl };
        item = record { of_that_kind = refl; has_value = refl };
        attempt = record { of_that_kind = refl; has_value = refl };
        dispatch = record { of_that_kind = refl; has_value = refl };
      };
    },
    (
      record {
        task = record { of_that_kind = refl; has_value = refl };
        item = record { of_that_kind = refl; has_value = refl };
        dependencies = (record { of_that_kind = refl; has_value = refl }, tt);
        attempt = tt;
      },
      tt,
    ),
  );
  suspension = tt;
  control = tt;
}

pub cancel_readable : ReadableEvent cancel
cancel_readable = record {
  event = record { of_that_kind = refl; has_value = refl };
  installation = record { of_that_kind = refl; has_value = refl };
  task = record { of_that_kind = refl; has_value = refl };
  kind = refl;
  item = tt;
  attempt = tt;
  dispatch = tt;
  suspension = tt;
  policy = tt;
  required = tt;
  wake = tt;
  reason = refl;
  principal = record { of_that_kind = refl; has_value = refl };
  evidence = record { of_that_kind = refl; has_value = refl };
  control_reason = refl;
  scope = refl;
  interrupt = tt;
  redirect = tt;
  superseded = tt;
}

pub cancelled_readable : ReadableAccepted cancelled
unfolding visible_agent_loop_proto.Kernel.Reduce.inputs_are_valid
    visible_agent_loop_proto.Kernel.Reduce.conclude
    visible_agent_loop_proto.Kernel.Reduce.reduce_new
    visible_agent_loop_proto.Kernel.Reduce.reduce_known
    visible_agent_loop_proto.Kernel.Reduce.reduce
    visible_agent_loop_proto.Kernel.Validity.accepted_event_is_valid
    visible_agent_loop_proto.Kernel.Validity.attempt_is_valid
    visible_agent_loop_proto.Kernel.Validity.item_fields_are_valid
    visible_agent_loop_proto.Kernel.Validity.item_attempt_is_valid
    visible_agent_loop_proto.Kernel.Validity.work_item_is_valid
    visible_agent_loop_proto.Kernel.Validity.suspension_is_valid
    visible_agent_loop_proto.Kernel.Validity.control_is_valid
    visible_agent_loop_proto.Kernel.Validity.state_header_is_valid
    visible_agent_loop_proto.Kernel.Validity.state_is_valid
    visible_agent_loop_proto.Kernel.Validity.event_header_is_valid
    visible_agent_loop_proto.Kernel.Validity.work_fields_are_valid
    visible_agent_loop_proto.Kernel.Validity.wait_fields_are_valid
    visible_agent_loop_proto.Kernel.Validity.control_fields_are_valid
    visible_agent_loop_proto.Kernel.Validity.event_is_valid
    visible_agent_loop_proto.Kernel.Validity.evidence_set_is_valid
    visible_agent_loop_proto.Kernel.Authority.authority_is_valid
    visible_agent_loop_proto.Kernel.Authority.cancelled_work_item
    visible_agent_loop_proto.Kernel.Authority.dict_get
    visible_agent_loop_proto.Kernel.Authority.eligible_from
    visible_agent_loop_proto.Kernel.Authority.eligible_work_item
    visible_agent_loop_proto.Kernel.Authority.same_attempt
    visible_agent_loop_proto.Kernel.Authority.attempt_event_is_stale
    visible_agent_loop_proto.Kernel.Branches.branch
    visible_agent_loop_proto.Kernel.Outcomes.refuse_if
    visible_agent_loop_proto.Kernel.Outcomes.attribute_of
    visible_agent_loop_proto.Kernel.ControlEvents.interrupt_requested
    visible_agent_loop_proto.Kernel.ControlEvents.interrupt_resumed
    visible_agent_loop_proto.Kernel.ControlEvents.cancel_where
    visible_agent_loop_proto.Kernel.ControlEvents.redirect_authorized
    visible_agent_loop_proto.Kernel.ControlEvents.task_cancelled
    visible_agent_loop_proto.Kernel.WaitEvents.suspension_started
    visible_agent_loop_proto.Kernel.WaitEvents.some_incomplete
    visible_agent_loop_proto.Kernel.WaitEvents.wake_accepted
    visible_agent_loop_proto.Kernel.ItemEvents.item_index
    visible_agent_loop_proto.Kernel.ItemEvents.replace_at
    visible_agent_loop_proto.Kernel.ItemEvents.on_item
    visible_agent_loop_proto.Kernel.ItemEvents.eligible_step
    visible_agent_loop_proto.Kernel.ItemEvents.work_item_eligible
    visible_agent_loop_proto.Kernel.ItemEvents.is_required_by_any
    visible_agent_loop_proto.Kernel.ItemEvents.cancellation_is_malformed
    visible_agent_loop_proto.Kernel.ItemEvents.skip_is_refused
    visible_agent_loop_proto.Kernel.ItemEvents.item_step
    visible_agent_loop_proto.Kernel.ItemEvents.work_item_event
    visible_agent_loop_proto.Kernel.Transitions.task_transition
    visible_agent_loop_proto.Kernel.Acceptance.accept
    visible_agent_loop_proto.Kernel.Digests.is_digest visible_agent_loop_proto.Kernel.Digests.codes
    visible_agent_loop_proto.Kernel.Identities.new_identity visible_agent_loop_proto.Prelude.all
    visible_agent_loop_proto.Prelude.any visible_agent_loop_proto.Prelude.contains
    visible_agent_loop_proto.Prelude.is_distinct visible_agent_loop_proto.Prelude.is_subset
    visible_agent_loop_proto.Prelude.find
cancelled_readable = record {
  result = record { of_that_kind = refl; has_value = refl };
  state = record {
    installation = record { of_that_kind = refl; has_value = refl };
    task = record { of_that_kind = refl; has_value = refl };
    status = refl;
    events = (
      record {
        event = record { of_that_kind = refl; has_value = refl };
        result = record { of_that_kind = refl; has_value = refl };
      },
      tt,
    );
    items = (
      record {
        task = record { of_that_kind = refl; has_value = refl };
        item = record { of_that_kind = refl; has_value = refl };
        dependencies = tt;
        attempt = record {
          task = record { of_that_kind = refl; has_value = refl };
          item = record { of_that_kind = refl; has_value = refl };
          attempt = record { of_that_kind = refl; has_value = refl };
          dispatch = record { of_that_kind = refl; has_value = refl };
        };
      },
      (
        record {
          task = record { of_that_kind = refl; has_value = refl };
          item = record { of_that_kind = refl; has_value = refl };
          dependencies = (record { of_that_kind = refl; has_value = refl }, tt);
          attempt = tt;
        },
        tt,
      ),
    );
    suspension = tt;
    control = tt;
  };
}

-- Its one piece of evidence stands in the canonical order.
authority_in_order : canonical_evidence authority ≡ map evidence_canonical authority
unfolding canonical_evidence sorted visible_agent_loop_proto.Json.insert_by
authority_in_order = refl

pub entry_readable : ReadableEntry entry
entry_readable = record {
  event = cancel_readable;
  evidence = (record { of_that_kind = refl; has_value = refl }, tt);
  in_order = authority_in_order;
  accepted = cancelled;
  result_accepted = refl;
  result = cancelled_readable;
}
