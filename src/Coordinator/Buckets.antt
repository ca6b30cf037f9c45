-- ===== src/Coordinator/Buckets.antt =====
-- src/coordinator/bucket_op_handler.cpp.
use pheromone.Base.{Bytes, Bucket, List, [], ◌∷◌, bytes_eq, if◌then◌else◌}
use pheromone.Base.Sets
use pheromone.Base.Maps.{get, put, erase, has, get_or}
use pheromone.Coordinator.Types.{
  Coordinator, KvsError, success, bucket_ne, bucket_exist, BucketOperationType, create_bucket,
  delete_bucket, unknown_bucket_operation, BucketOperationRequest, Send, bucket_operation_response,
}

-- The new state, and the error of the response; an unknown operation leaves the error unset.
unfoldable pub bucket_op :
    Coordinator → BucketOperationType → Bytes → Bucket → Coordinator × KvsError
bucket_op c create_bucket app bucket = if has c.bucket_app_map bucket then (c, bucket_exist) else (
  record c {
    app_buckets_map =
        put c.app_buckets_map app (Sets.insert (get_or (get c.app_buckets_map app) []) bucket);
    bucket_app_map = put c.bucket_app_map bucket app;
  },
  success,
)
bucket_op c delete_bucket app bucket =
    if has c.bucket_app_map bucket
    then (
      record c {
        app_buckets_map =
            put c.app_buckets_map app (Sets.erase (get_or (get c.app_buckets_map app) []) bucket);
        bucket_app_map = erase c.bucket_app_map bucket;
        bucket_triggers_map = erase c.bucket_triggers_map bucket;
      },
      success,
    )
    else (c, bucket_ne)
bucket_op c (unknown_bucket_operation code) app bucket = (c, success)

unfoldable pub bucket_op_handler : Coordinator → BucketOperationRequest → Coordinator × List Send
unfolding bucket_op
bucket_op_handler c request =
    let (c', error) = bucket_op c request.operation_type request.app_name request.bucket_name in
    (
      c',
      record {
        address = request.response_address;
        message = bucket_operation_response (record {
          bucket_name = request.bucket_name;
          response_id = request.request_id;
          error = error;
        });
      }
          ∷ [],
    )
